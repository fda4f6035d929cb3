-- ===== src/Reassembly/Steps/Insert.antt =====
-- `insert_ooo_first_seen` in flow/reassembly.rs takes elementary steps only.
use bazalt.Prelude.{
  ℕ, suc, ◌≤◌, ◌<◌, ◌≡◌, ◌&&◌, Bool, refl, true, false, Option, none, some, length, is_some, ltb,
  leb, min, saturating_add, run_loop, run_loop_inv, if_cases, option_cases, ltb→lt, arith,
}
use bazalt.BTreeMap.{first_in}
use bazalt.Reassembly.Types.{Bytes, BufferedSegment, Ctx, end_of}
use bazalt.Reassembly.Half.{set_retransmit}
use bazalt.Reassembly.Insert.{
  covered_to, piece_end, store_piece, skip_next, insert_piece, insert_round, insert_ooo_first_seen,
}
use bazalt.Reassembly.Intervals.{covered_to-gt}
use bazalt.Reassembly.Steps.Relation.{Steps, stores, done, next, Steps-trans}
use bazalt.Reassembly.Steps.Recover.{set_retransmit-Steps}

-- What the loop of `insert_ooo_first_seen` keeps of its cursor and state.
record Inserting (c : Ctx) (start end : ℕ) (p : ℕ × Ctx) : Type 0 where
  steps : Steps true c p.1
  opened : p.1.half.fin_consumed ≡ false
  begun : is_some p.1.half.next_abs ≡ true
  from : start ≤ p.0

module _ (c : Ctx) (start ts : ℕ) (bytes : Bytes) (end : ℕ) where
  skipped :
      (cursor to : ℕ) (d : Ctx)
      → start ≤ to
      → Inserting c start end (cursor, d)
      → Inserting c start end (to, set_retransmit d)
  skipped cursor to d le i = record {
    steps = Steps-trans i.steps (set_retransmit-Steps d);
    opened = i.opened;
    begun = i.begun;
    from = le;
  }

  skip_next-Inserting :
      (next : Option (ℕ × BufferedSegment)) (p : ℕ × Ctx)
      → start ≤ end
      → Inserting c start end p
      → Inserting c start end (skip_next next end p)
  unfolding skip_next
  skip_next-Inserting none p le i = i
  skip_next-Inserting (some (s, seg)) (cursor, d) le i =
      if_cases (Inserting c start end) (leb s cursor && ltb cursor (end_of seg s))
        (λ skip. skipped cursor (min (end_of seg s) end) d (ground (arith, i.from)) i) (λ _. i)

  insert_piece-Inserting :
      (cursor : ℕ) (d : Ctx)
      → start ≤ end
      → end ≤ saturating_add start (length bytes)
      → cursor < end
      → covered_to cursor d.half.out_of_order ≡ none
      → Inserting c start end (cursor, d)
      → Inserting c start end (insert_piece start ts bytes end (cursor, d))
  unfolding insert_piece store_piece
  insert_piece-Inserting cursor d le fits below free i =
      skip_next-Inserting (first_in cursor end d.half.out_of_order) _ le (
        if_cases (Inserting c start end) (ltb cursor (piece_end cursor end d.half.out_of_order))
          (λ more. record {
            steps = next i.steps (
                stores refl start ts bytes cursor end i.opened i.begun i.from fits (ltb→lt _ _ more)
                  below free);
            opened = i.opened;
            begun = i.begun;
            from = omega (arith, i.from, ltb→lt _ _ more);
          })
          (λ _. i))

  insert_round-Inserting :
      end ≤ saturating_add start (length bytes)
      → (p : ℕ × Ctx) → Inserting c start end p
      → Inserting c start end (insert_round start ts bytes end p).0
  unfolding insert_round
  insert_round-Inserting fits (cursor, d) i =
      if_cases to (ltb cursor end)
        (λ below.
          option_cases to (covered_to cursor d.half.out_of_order)
            (λ free.
              insert_piece-Inserting cursor d (omega (arith, i.from, ltb→lt _ _ below)) fits
                (ltb→lt _ _ below) free i)
            (λ existing e.
              skipped cursor (min existing end) d
                (omega
                  (arith, i.from, ltb→lt _ _ below, covered_to-gt cursor d.half.out_of_order e))
                i))
        (λ _. i)
    where
      to : (ℕ × Ctx) × Bool → Type 0
      to r = Inserting c start end r.0

pub insert_ooo_first_seen-Steps :
    (start ts : ℕ) (bytes : Bytes) (c : Ctx)
    → c.half.fin_consumed ≡ false
    → is_some c.half.next_abs ≡ true
    → Steps true c (insert_ooo_first_seen start ts bytes c)
      × ((insert_ooo_first_seen start ts bytes c).half.fin_consumed ≡ false)
unfolding insert_ooo_first_seen
insert_ooo_first_seen-Steps start ts bytes c opened begun = (run.steps, run.opened)
  where
    end : ℕ
    end = saturating_add start (length bytes)

    run :
        Inserting c start end
          (run_loop (suc (length bytes)) (insert_round start ts bytes end) (start, c))
    run =
        run_loop_inv (Inserting c start end) (insert_round start ts bytes end)
          (insert_round-Inserting c start ts bytes end (omega arith)) (suc (length bytes))
          (start, c) (record { steps = done; opened = opened; begun = begun; from = omega arith })
