-- ===== src/Reassembly/Insert.antt =====
-- `insert_ooo_first_seen` in flow/reassembly.rs: a segment enters the buffer only where no byte was
-- seen before.
use bazalt.Prelude.{
  ℕ, suc, ◌-◌, Bool, true, false, ◌&&◌, Option, none, some, length, take, drop, ltb, leb,
  if◌then◌else◌, min, saturating_add, run_loop,
}
use bazalt.BTreeMap.{BTreeMap, insert, last_le, first_in}
use bazalt.Reassembly.Types.{Bytes, BufferedSegment, Ctx, end_of}
use bazalt.Reassembly.Half.{set_retransmit}

-- The end of a buffered range that covers `cursor`.
unfoldable pub covered_to : ℕ → BTreeMap BufferedSegment → Option ℕ
unfolding last_le
covered_to cursor m = elim (last_le cursor m) [
  | none ↦ none
  | some e ↦ if ltb cursor (end_of e.1 e.0) then some (end_of e.1 e.0) else none
]

-- Where the uncovered prefix from `cursor` ends.
unfoldable pub piece_end : ℕ → ℕ → BTreeMap BufferedSegment → ℕ
unfolding first_in
piece_end cursor end m = elim (first_in cursor end m) [ none ↦ min end end | some e ↦ min e.0 end ]

-- The bytes of `[cursor, to)` of a segment that starts at `start`.
abbrev pub piece : ℕ → Bytes → ℕ → ℕ → Bytes
piece start bytes cursor to = take (to - cursor) (drop (cursor - start) bytes)

-- Stores the bytes of `[cursor, to)` of the segment that starts at `start`.
unfoldable pub store_piece : ℕ → ℕ → Bytes → ℕ → ℕ → Ctx → Ctx
unfolding insert
store_piece start ts bytes cursor to c =
    let compact = piece start bytes cursor to in
    record {
      half = record (c.half) {
        out_of_order = insert cursor (record { bytes = compact; ts_ns = ts }) c.half.out_of_order;
        out_of_order_bytes = saturating_add c.half.out_of_order_bytes (length compact);
      };
      out = c.out;
    }

-- Skips a range that begins at or before `cursor` and ends behind it; `next` was looked up before
-- the piece was stored.
unfoldable pub skip_next : Option (ℕ × BufferedSegment) → ℕ → ℕ × Ctx → ℕ × Ctx
skip_next none end (cursor, c) = (cursor, c)
skip_next (some (s, seg)) end (cursor, c) =
    if leb s cursor && ltb cursor (end_of seg s)
    then (min (end_of seg s) end, set_retransmit c)
    else (cursor, c)

-- One round of the loop, at a cursor below `end`.
unfoldable pub insert_piece : ℕ → ℕ → Bytes → ℕ → ℕ × Ctx → ℕ × Ctx
unfolding piece_end store_piece skip_next first_in
insert_piece start ts bytes end (cursor, c) =
    let to = piece_end cursor end c.half.out_of_order in
    skip_next (first_in cursor end c.half.out_of_order) end
      (if ltb cursor to then (to, store_piece start ts bytes cursor to c) else (cursor, c))

unfoldable pub insert_round : ℕ → ℕ → Bytes → ℕ → ℕ × Ctx → (ℕ × Ctx) × Bool
unfolding covered_to insert_piece
insert_round start ts bytes end (cursor, c) =
    if ltb cursor end
    then (elim (covered_to cursor c.half.out_of_order) [
      | none ↦ (insert_piece start ts bytes end (cursor, c), true)
      | some existing_end ↦ ((min existing_end end, set_retransmit c), true)
    ])
    else ((cursor, c), false)

-- Each round moves the cursor, so the length of the segment bounds the rounds.
unfoldable pub insert_ooo_first_seen : ℕ → ℕ → Bytes → Ctx → Ctx
unfolding insert_round run_loop
insert_ooo_first_seen start ts bytes c =
    (run_loop (suc (length bytes))
      (insert_round start ts bytes (saturating_add start (length bytes))) (start, c)).1
