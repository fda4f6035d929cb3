-- ===== src/Reassembly/FirstSeen.antt =====
-- `insert_ooo_first_seen` in flow/reassembly.rs and its specification byte by byte.
use bazalt.Prelude.{
  ℕ, suc, ◌+◌, ◌-◌, ◌≤◌, ◌<◌, ◌≡◌, refl, subst, sym, ◌∙◌, true, false, ◌&&◌, Option, none, length,
  get_elem?, is_some, or_else, ltb, leb, if◌then◌else◌, min, saturating_add, u64_max, run_loop,
  run_loop_exit, Bool-cases, Option-cases, if_cases, ltb→lt, lt→ltb, inl, inr, arith,
}
use bazalt.BTreeMap.{BTreeMap, first_in}
use bazalt.Reassembly.Types.{Bytes, BufferedSegment, Ctx, end_of}
use bazalt.Reassembly.Half.{set_retransmit}
use bazalt.Reassembly.Insert.{
  covered_to, piece_end, store_piece, skip_next, insert_piece, insert_round, insert_ooo_first_seen,
}
use bazalt.Reassembly.Intervals.{
  Spaced, byte_at, byte_at-free, byte_at-covered, byte_at-first_in, byte_at-insert, Spaced-insert,
  length-piece, get_elem?-piece, first_in-piece_end, covered_to-gt, piece_end-le, piece_end-gt,
}

-- The byte of a segment that starts at `start`, at a position before `cursor`.
abbrev pub segment_byte : ℕ → Bytes → ℕ → ℕ → Option ℕ
segment_byte start bytes cursor p =
    if leb start p && ltb p cursor then get_elem? bytes (p - start) else none

-- The specification: what was buffered stays, and the segment fills the rest.
abbrev pub FirstSeen : BTreeMap BufferedSegment → ℕ → Bytes → BTreeMap BufferedSegment → Type 0
FirstSeen m start bytes m' =
    (p : ℕ)
    → byte_at m' p ≡ or_else (byte_at m p) (segment_byte start bytes (start + length bytes) p)

module _ (m : BTreeMap BufferedSegment) (start : ℕ) (bytes : Bytes) where
  -- The loop's state: the segment's bytes before the cursor are in, and no others.
  record Filled (s : ℕ × Ctx) : Type 0 where
    spaced : Spaced 0 s.1.half.out_of_order
    from : start ≤ s.0
    upto : s.0 ≤ start + length bytes
    holds :
        (p : ℕ)
        → byte_at s.1.half.out_of_order p ≡ or_else (byte_at m p) (segment_byte start bytes s.0 p)

  -- A cursor may pass over positions at which something is buffered.
  pass-Filled :
      (cursor to : ℕ) (c d : Ctx)
      → Filled (cursor, c)
      → cursor ≤ to
      → to ≤ start + length bytes
      → d.half.out_of_order ≡ c.half.out_of_order
      → ((p : ℕ) → cursor ≤ p → p < to → is_some (byte_at c.half.out_of_order p) ≡ true)
      → Filled (to, d)
  pass-Filled cursor to c d f le lt same covered = record {
    spaced = rw same f.spaced;
    from = omega (arith, f.from);
    upto = lt;
    holds = λ p. rw same (ground (arith, f.holds p, covered p));
  }

  module _ (ts : ℕ) (fits : start + length bytes ≤ u64_max) where
    store-Filled :
        (cursor : ℕ) (c : Ctx)
        → Filled (cursor, c)
        → covered_to cursor c.half.out_of_order ≡ none
        → cursor < start + length bytes
        → let to = piece_end cursor (start + length bytes) c.half.out_of_order in
          Filled (to, store_piece start ts bytes cursor to c)
    unfolding store_piece
    store-Filled cursor c f free below =
        let more =
          piece_end-gt 0 cursor (start + length bytes) c.half.out_of_order f.spaced free below in
        let least = piece_end-le cursor (start + length bytes) c.half.out_of_order in
        let size =
          length-piece start bytes cursor
            (piece_end cursor (start + length bytes) c.half.out_of_order) f.from
            (omega (arith, more)) least in
        record {
          spaced =
              (Spaced-insert 0 cursor (start + length bytes) _ c.half.out_of_order f.spaced
                (omega arith) (omega (arith, more, size)) fits (omega (arith, more, size)) free).0;
          from = omega (arith, f.from, more);
          upto = least;
          holds = λ p.
              byte_at-insert 0 cursor (start + length bytes) _ c.half.out_of_order p f.spaced
                (omega (arith, more, size)) (omega (arith, more, size)) free
              ∙ ground (
                arith,
                more,
                size,
                f.holds p,
                byte_at-free 0 cursor (start + length bytes) p c.half.out_of_order f.spaced free,
                get_elem?-piece start bytes cursor
                    (piece_end cursor (start + length bytes) c.half.out_of_order) p f.from,
              );
        }

    insert_piece-Filled :
        (cursor : ℕ) (c : Ctx)
        → Filled (cursor, c)
        → covered_to cursor c.half.out_of_order ≡ none
        → cursor < start + length bytes
        → Filled (insert_piece start ts bytes (start + length bytes) (cursor, c))
          × (cursor < (insert_piece start ts bytes (start + length bytes) (cursor, c)).0)
    unfolding insert_piece skip_next
    insert_piece-Filled cursor c f free below =
        rw (lt→ltb _ _ more) (elim (Option-cases (first_in cursor (start + length bytes) old)) [
          | inl e ↦ rw e (stored, more)
          | inr (q, e) ↦ rw e (
              if_cases (λ (r : ℕ × Ctx). Filled r × (cursor < r.0))
                (leb q.0 to && ltb to (end_of q.1 q.0))
                (λ skip. (
                  pass-Filled to (min (end_of q.1 q.0) (start + length bytes)) kept
                      (set_retransmit kept) stored (ground arith) (omega arith) refl
                      (λ p a b. ground (
                        arith,
                        stored.holds p,
                        f.holds p,
                        more,
                        first_in-piece_end cursor (start + length bytes) old q e,
                        byte_at-first_in 0 cursor (start + length bytes) p old q f.spaced e,
                      )),
                  ground (arith, more),
                ))
                (λ _. (stored, more)))
        ])
      where
        old : BTreeMap BufferedSegment
        old = c.half.out_of_order

        to : ℕ
        to = piece_end cursor (start + length bytes) old

        kept : Ctx
        kept = store_piece start ts bytes cursor to c

        more : cursor < to
        more = piece_end-gt 0 cursor (start + length bytes) old f.spaced free below

        stored : Filled (to, kept)
        stored = store-Filled cursor c f free below

    round_step :
        (s : ℕ × Ctx)
        → Filled s
        → (insert_round start ts bytes (start + length bytes) s).1 ≡ true
        → Filled (insert_round start ts bytes (start + length bytes) s).0
          × (start + length bytes - (insert_round start ts bytes (start + length bytes) s).0.0
              < start + length bytes - s.0)
    unfolding insert_round
    round_step (cursor, c) f again = elim (Bool-cases (ltb cursor (start + length bytes))) [
      | inr at ↦ absurd (ground arith)
      | inl below ↦ elim (Option-cases (covered_to cursor c.half.out_of_order)) [
        | inl free ↦
            let stored = insert_piece-Filled cursor c f free (ltb→lt _ _ below) in
            rw (below, free) (stored.0, omega (arith, stored.1, ltb→lt _ _ below))
        | inr (e, covered) ↦
            let further = covered_to-gt cursor c.half.out_of_order covered in
            rw (below, covered)
              (
                pass-Filled cursor (min e (start + length bytes)) c (set_retransmit c) f
                    (omega (arith, further, ltb→lt _ _ below)) (omega arith) refl
                    (λ p a b.
                      byte_at-covered 0 cursor p e c.half.out_of_order f.spaced covered a
                        (omega arith)),
                omega (arith, further, ltb→lt _ _ below),
              )
      ]
    ]

    round_exit :
        (s : ℕ × Ctx)
        → Filled s
        → (insert_round start ts bytes (start + length bytes) s).1 ≡ false
        → FirstSeen m start bytes
            (insert_round start ts bytes (start + length bytes) s).0.1.half.out_of_order
    unfolding insert_round
    round_exit (cursor, c) f stop = elim (Bool-cases (ltb cursor (start + length bytes))) [
      | inr at ↦ rw at (λ p. ground (arith, f.holds p, f.upto))
      | inl below ↦ absurd (ground arith)
    ]

-- For a buffer of disjoint segments and a segment that ends below 2^64, the loop ends and the buffer
-- then holds at every position the byte that it held before, or else the segment's byte there, and
-- nothing where neither has a byte.
pub insert_ooo_first_seen-FirstSeen :
    (start ts : ℕ) (bytes : Bytes) (c : Ctx)
    → Spaced 0 c.half.out_of_order
    → start + length bytes ≤ u64_max
    → FirstSeen c.half.out_of_order start bytes
        (insert_ooo_first_seen start ts bytes c).half.out_of_order
unfolding insert_ooo_first_seen
insert_ooo_first_seen-FirstSeen start ts bytes c spaced fits =
    subst
      (λ k.
        FirstSeen m start bytes
          (run_loop (suc (length bytes)) (insert_round start ts bytes k)
            (start, c)).1.half.out_of_order)
      (sym exact)
      (run_loop_exit (Filled m start bytes)
        (λ (s : ℕ × Ctx). FirstSeen m start bytes s.1.half.out_of_order)
        (λ (s : ℕ × Ctx). start + length bytes - s.0)
        (insert_round start ts bytes (start + length bytes)) (round_step m start bytes ts fits)
        (round_exit m start bytes ts fits) (suc (length bytes)) (start, c)
        (record {
          spaced = spaced;
          from = omega arith;
          upto = omega arith;
          holds = λ p. ground arith;
        })
        (omega arith))
  where
    m : BTreeMap BufferedSegment
    m = c.half.out_of_order

    exact : saturating_add start (length bytes) ≡ start + length bytes
    exact = omega arith
