-- ===== src/Reassembly/Steps/Relation.antt =====
-- The elementary steps of flow/reassembly.rs, with what the code has tested when it takes each.
use bazalt.Prelude.{
  ℕ, ◌≤◌, ◌<◌, ◌≡◌, Bool, true, false, none, some, length, is_empty, is_some, saturating_add, leb,
  ◌==◌, ◌&&◌, not, if_cases, arith,
}
use bazalt.BTreeMap.{first_key_value}
use bazalt.Reassembly.Types.{Bytes, BufferedSegment, Ctx}
use bazalt.Reassembly.Half.{
  push_chunk, push_gap, consume_fin_at, close_half, fin_acked, remove_segment,
}
use bazalt.Reassembly.Insert.{covered_to, piece_end, store_piece}

-- Two states that differ in flags, timers, the FIN marker and the ACK watermark only.
pub record SameStream (c d : Ctx) : Type 0 where
  pub next_abs : d.half.next_abs ≡ c.half.next_abs
  pub stream_offset : d.half.stream_offset ≡ c.half.stream_offset
  pub out_of_order : d.half.out_of_order ≡ c.half.out_of_order
  pub out_of_order_bytes : d.half.out_of_order_bytes ≡ c.half.out_of_order_bytes
  pub fin_consumed : d.half.fin_consumed ≡ c.half.fin_consumed
  pub emitted : d.out.emitted ≡ c.out.emitted
  pub gaps : d.out.gaps ≡ c.out.gaps

-- The flag says whether bytes may enter the buffer.
pub data Step (grows : Bool) (c : Ctx) : Ctx → Type 0 where
  notes : {d : Ctx} → SameStream c d → Step grows c d
  emits :
      (bytes : Bytes) (ts n : ℕ)
      → is_empty bytes ≡ false
      → c.half.next_abs ≡ some n
      → Step grows c (push_chunk bytes ts c)
  skips :
      (target n : ℕ) → n < target → c.half.next_abs ≡ some n → Step grows c (push_gap target n c)
  closes :
      (fin n : ℕ)
      → c.half.fin_consumed ≡ false
      → c.half.pending_fin ≡ some fin
      → c.half.next_abs ≡ some n
      → Step grows c (consume_fin_at fin n c)
  removes :
      (key : ℕ) (seg : BufferedSegment)
      → first_key_value c.half.out_of_order ≡ some (key, seg)
      → Step grows c (remove_segment key seg c)
  stores :
      grows ≡ true
      → (start ts : ℕ) (bytes : Bytes) (cursor end : ℕ) → c.half.fin_consumed ≡ false
      → is_some c.half.next_abs ≡ true
      → start ≤ cursor
      → end ≤ saturating_add start (length bytes)
      → cursor < piece_end cursor end c.half.out_of_order
      → cursor < end
      → covered_to cursor c.half.out_of_order ≡ none
      → Step grows c
          (store_piece start ts bytes cursor (piece_end cursor end c.half.out_of_order) c)

pub data Steps (grows : Bool) (c : Ctx) : Ctx → Type 0 where
  done : Steps grows c c
  next : {d e : Ctx} → Steps grows c d → Step grows d e → Steps grows c e

pub Steps-trans : {g : Bool} {c d e : Ctx} → Steps g c d → Steps g d e → Steps g c e
Steps-trans r done = r
Steps-trans r (next s st) = next (Steps-trans r s) st

pub one : {g : Bool} {c d : Ctx} → Step g c d → Steps g c d
one s = next done s

-- `consume_fin_at` leaves the state or closes the half, at the FIN or behind it.
pub consume_fin_at_cases {ℓ} :
    (P : Ctx → Type ℓ) (fin n : ℕ) (c : Ctx)
    → P c
    → (fin ≡ n → P (close_half (saturating_add n 1) c))
    → (fin < n → P (close_half n c))
    → P (consume_fin_at fin n c)
consume_fin_at_cases P fin n c keep at behind =
    if_cases P (leb fin n)
      (λ reached.
        if_cases P (fin == n)
          (λ e.
            if_cases P (c.half.pending_fin_requires_ack && not (fin_acked c.half fin)) (λ _. keep)
              (λ _. at (ground arith)))
          (λ ne. behind (ground arith)))
      (λ _. keep)
