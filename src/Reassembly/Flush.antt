-- ===== src/Reassembly/Flush.antt =====
-- What the flush and the gap in front of the first segment do in flow/reassembly.rs.
use bazalt.Prelude.{
  ℕ, ◌-◌, ◌≤◌, ◌<◌, ◌≡◌, refl, ◌⊎◌, inl, inr, true, false, none, some, [], ◌∷◌, length, leb,
  run_loop-stop, run_loop-more, if_cases, option_cases, Option-cases, dec_le, arith,
}
use bazalt.BTreeMap.{BTreeMap, first_key_value}
use bazalt.Reassembly.Types.{BufferedSegment, TcpHalf, Ctx}
use bazalt.Reassembly.Half.{
  push_gap, gap_target, emit_gap_to, remove_segment, emit_segment, flush_round, flush_ooo,
}
use bazalt.Reassembly.Recover.{ahead_of, skip_gap}
use bazalt.Reassembly.Intervals.{Spaced, total}
use bazalt.Reassembly.Valid.{IsValid}
use bazalt.Reassembly.Settled.{consume_fin_cases}
use bazalt.Reassembly.Steps.Relation.{Steps-trans}
use bazalt.Reassembly.Steps.Loops.{emit_segment-Steps, flush_round-Steps, run_loop-Steps}
use bazalt.Reassembly.Steps.Drain.{Steps-Shrinks, remove_first-length}

-- A half that can go on: its FIN is not consumed, and the position and the first segment are known.
pub record Waits (c : Ctx) (n : ℕ) (first : ℕ × BufferedSegment) : Type 0 where
  pub opened : c.half.fin_consumed ≡ false
  pub position : c.half.next_abs ≡ some n
  pub front : first_key_value c.half.out_of_order ≡ some first

flush_round-idle :
    (c : Ctx) (n : ℕ) (first : ℕ × BufferedSegment)
    → Waits c n first
    → n < first.0
    → flush_round c ≡ (c, false)
unfolding flush_round
flush_round-idle c n first w lt = ground arith

flush_round-takes :
    (c : Ctx) (n : ℕ) (first : ℕ × BufferedSegment)
    → Waits c n first
    → first.0 ≤ n
    → flush_round c ≡ (emit_segment n first.0 first.1 (remove_segment first.0 first.1 c), true)
unfolding flush_round
flush_round-takes c n first w le = ground arith

flush_round-closed : (c : Ctx) → c.half.fin_consumed ≡ true → flush_round c ≡ (c, false)
unfolding flush_round
flush_round-closed c e = ground arith

-- The flush does nothing in front of a hole.
pub flush_ooo-idle :
    (c : Ctx) (n : ℕ) (first : ℕ × BufferedSegment)
    → Waits c n first
    → n < first.0
    → flush_ooo c ≡ c
unfolding flush_ooo
flush_ooo-idle c n first w lt =
    run_loop-stop flush_round (length c.half.out_of_order) c c (flush_round-idle c n first w lt)

remove_first-less :
    (key : ℕ) (seg : BufferedSegment) (c : Ctx)
    → IsValid c.half
    → first_key_value c.half.out_of_order ≡ some (key, seg)
    → (remove_segment key seg c).half.out_of_order_bytes < c.half.out_of_order_bytes
unfolding remove_segment
remove_first-less key seg c v e = at c.half.out_of_order e v.spaced v.counted
  where
    at :
        (m : BTreeMap BufferedSegment)
        → first_key_value m ≡ some (key, seg)
        → Spaced 0 m
        → c.half.out_of_order_bytes ≡ total m
        → c.half.out_of_order_bytes - length seg.bytes < c.half.out_of_order_bytes
    at [] e s t = absurd (ground arith)
    at ((j, w) ∷ m) e s t = ground arith

-- Where the first segment is reached, the flush takes bytes out of the buffer.
pub flush_ooo-progress :
    (c : Ctx) (n : ℕ) (first : ℕ × BufferedSegment)
    → IsValid c.half
    → Waits c n first
    → first.0 ≤ n
    → (flush_ooo c).half.out_of_order_bytes < c.half.out_of_order_bytes
unfolding flush_ooo remove_segment
flush_ooo-progress c n first v w le =
    rw
      (run_loop-more flush_round (length c.half.out_of_order) c _
        (flush_round-takes c n first w le))
      (omega (
        arith,
        remove_first-less first.0 first.1 c v w.front,
        Steps-Shrinks (
            Steps-trans
              (emit_segment-Steps n first.0 first.1 (remove_segment first.0 first.1 c) w.position)
              (run_loop-Steps flush_round flush_round-Steps (length c.half.out_of_order) _)),
      ))

-- It also takes a segment out.
pub flush_ooo-fewer :
    (c : Ctx) (n : ℕ) (first : ℕ × BufferedSegment)
    → Waits c n first
    → first.0 ≤ n
    → length (flush_ooo c).half.out_of_order < length c.half.out_of_order
unfolding flush_ooo remove_segment
flush_ooo-fewer c n first w le =
    rw
      (run_loop-more flush_round (length c.half.out_of_order) c _
        (flush_round-takes c n first w le))
      (omega (
        arith,
        remove_first-length first.0 first.1 c w.front,
        Steps-Shrinks (
            Steps-trans
              (emit_segment-Steps n first.0 first.1 (remove_segment first.0 first.1 c) w.position)
              (run_loop-Steps flush_round flush_round-Steps (length c.half.out_of_order) _)),
      ))

-- A FIN that the half waits for lies at or before the position, in front of the first segment.
pub record HeldByFin (c : Ctx) (n : ℕ) (first : ℕ × BufferedSegment) (fin : ℕ) : Type 0 where
  pub waits : Waits c n first
  pub ahead : n < first.0
  pub marker : c.half.pending_fin ≡ some fin
  pub reached : fin ≤ n

-- What a gap up to the first segment leads to.
abbrev pub Gapped : ℕ × BufferedSegment → Ctx → Type 0
Gapped first c =
    (c.half.fin_consumed ≡ true)
    ⊎ ((n : ℕ) × Waits c n first
        × ((first.0 ≤ n) ⊎ ((fin : ℕ) × (c.half.pending_fin ≡ some fin) × (fin ≤ n))))

gap_target-Gapped :
    (h : TcpHalf) (target n : ℕ)
    → gap_target h target ≤ n
    → (target ≤ n) ⊎ ((fin : ℕ) × (h.pending_fin ≡ some fin) × (fin ≤ n))
gap_target-Gapped h target n le = elim (Option-cases h.pending_fin) [
  | inl e ↦ inl (ground arith)
  | inr (fin, e) ↦ elim (dec_le target n) [ yes t ↦ inl t | no t ↦ inr (fin, e, ground arith) ]
]

pub emit_gap_to-Gapped :
    (c : Ctx) (n : ℕ) (first : ℕ × BufferedSegment)
    → Waits c n first
    → Gapped first (emit_gap_to first.0 c)
unfolding emit_gap_to
emit_gap_to-Gapped c n first w =
    option_cases (Gapped first) c.half.next_abs (λ e. absurd (ground (arith, w.position)))
      λ m e.
        if_cases (Gapped first) (leb (gap_target c.half first.0) m)
          (λ at. inr (
            m,
            record { opened = w.opened; position = e; front = w.front },
            gap_target-Gapped c.half first.0 m (ground arith),
          ))
          (λ _.
            consume_fin_cases (Gapped first) (push_gap (gap_target c.half first.0) m c)
              (inr (
                gap_target c.half first.0,
                record { opened = w.opened; position = refl; front = w.front },
                gap_target-Gapped c.half first.0 (gap_target c.half first.0) (omega arith),
              ))
              (λ _. inl refl))

pub skip_gap-Gapped :
    (c : Ctx) (n : ℕ) (first : ℕ × BufferedSegment)
    → Waits c n first
    → Gapped first (skip_gap first.0 c)
skip_gap-Gapped c n first w =
    if_cases (Gapped first) (ahead_of c.half.next_abs first.0) (λ _. emit_gap_to-Gapped c n first w)
      (λ at. inr (n, w, inl (ground (arith, w.position))))

pub first_none : (m : BTreeMap BufferedSegment) → first_key_value m ≡ none → m ≡ []
first_none [] e = refl
first_none (x ∷ m) e = absurd (ground arith)

pub flush_ooo-closed : (c : Ctx) → c.half.fin_consumed ≡ true → flush_ooo c ≡ c
unfolding flush_ooo
flush_ooo-closed c e =
    run_loop-stop flush_round (length c.half.out_of_order) c c (flush_round-closed c e)

pub waits :
    (c : Ctx) (first : ℕ × BufferedSegment)
    → IsValid c.half
    → first_key_value c.half.out_of_order ≡ some first
    → (n : ℕ) × Waits c n first
waits c first v e = elim (Option-cases c.half.next_abs) [
  | inl idle ↦ absurd (ground (arith, v.started idle))
  | inr (n, at) ↦ (n, record { opened = ground (arith, v.drained); position = at; front = e })
]
