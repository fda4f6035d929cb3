-- ===== src/Fragments/Pieces.antt =====
-- What `FragmentCache::insert` in capture/fragment.rs decides about a fragment at the state of its
-- datagram.
use bazalt.Prelude.{
  ℕ, ◌%◌, Bool, true, false, not, ◌&&◌, ◌||◌, Option, none, some, [], ◌∷◌, ◌++◌, length, is_empty,
  ltb, leb, ◌==◌, if◌then◌else◌, or_else, saturating_add,
}
use bazalt.BTreeMap.{BTreeMap, insert, get, last_lt, first_ge}
use bazalt.Fragments.Types.{Bytes, FragmentPiece, FragmentState, fragment_piece_overhead}

-- The local `Reject`.
pub data Reject : Type 0 where
  invalid overlap : Reject

-- Slice equality.
abbrev pub same_bytes : Bytes → Bytes → Bool
same_bytes [] [] = true
same_bytes [] (y ∷ ys) = false
same_bytes (x ∷ xs) [] = false
same_bytes (x ∷ xs) (y ∷ ys) = x == y && same_bytes xs ys

abbrev pub same_flag : Bool → Bool → Bool
same_flag true b = b
same_flag false b = not b

-- `end > 65_535 || (more && (payload.is_empty() || payload.len() % 8 != 0))`
abbrev pub is_malformed : ℕ → Bool → Bytes → Bool
is_malformed end more payload =
    ltb 65_535 end || (more && (is_empty payload || not (length payload % 8 == 0)))

-- Some piece ends behind `end`.
abbrev pub any_beyond : ℕ → BTreeMap FragmentPiece → Bool
any_beyond end [] = false
any_beyond end ((start, piece) ∷ m) =
    ltb end (saturating_add start (length piece.bytes)) || any_beyond end m

-- A final fragment declares the length of the datagram.
unfoldable pub declare_total : Bool → ℕ → FragmentState → FragmentState × Option Reject
declare_total true end st = (st, none)
declare_total false end st =
    let declared : FragmentState × Option Reject = (
      record st { total_len = some end },
      if any_beyond end st.pieces then some invalid else none,
    ) in
    elim st.total_len [
      | none ↦ declared
      | some existing ↦ if existing == end then declared else (st, some invalid)
    ]

-- A fragment beyond the declared length.
unfoldable pub check_total : Bool → ℕ → Option ℕ → Option Reject
check_total more end none = none
check_total more end (some total) =
    if ltb total end || (more && leb total end) then some invalid else none

-- The piece before `offset` reaches over it.
unfoldable pub overlaps_prev : ℕ → BTreeMap FragmentPiece → Bool
unfolding last_lt
overlaps_prev offset m = elim (last_lt offset m) [
  | none ↦ false
  | some e ↦ ltb offset (saturating_add e.0 (length e.1.bytes))
]

-- The piece from `offset` on starts before `end`.
unfoldable pub overlaps_next : ℕ → ℕ → BTreeMap FragmentPiece → Bool
unfolding first_ge
overlaps_next offset end m = elim (first_ge offset m) [ none ↦ false | some e ↦ ltb e.0 end ]

-- `reject` and `duplicate` when the checks are through.
pub data Verdict : Type 0 where
  rejected : Reject → Verdict
  duplicated fresh : Verdict

-- The overlap checks of a fragment that nothing rejected so far.
unfoldable pub judge_overlap : ℕ → Bool → Bytes → ℕ → BTreeMap FragmentPiece → Verdict
unfolding get overlaps_prev overlaps_next
judge_overlap offset more payload end m = elim (get offset m) [
  | some existing ↦
      if same_flag existing.more more && same_bytes existing.bytes payload
      then duplicated
      else rejected overlap
  | none ↦ if overlaps_prev offset m || overlaps_next offset end m then rejected overlap else fresh
]

-- All checks: the state with what a final fragment declared, and the verdict.
unfoldable pub judge : ℕ → Bool → Bytes → ℕ → FragmentState → FragmentState × Verdict
unfolding declare_total check_total judge_overlap
judge offset more payload end st =
    let (declared, reject) = declare_total more end st in
    (
      declared,
      elim (or_else reject (check_total more end declared.total_len)) [
        | some r ↦ rejected r
        | none ↦ judge_overlap offset more payload end declared.pieces
      ],
    )

-- `added_len`
abbrev pub added_len : Bytes → ℕ
added_len payload = saturating_add (length payload) fragment_piece_overhead

unfoldable pub store_fragment : ℕ → Bool → Bytes → ℕ → FragmentState → FragmentState
unfolding insert
store_fragment offset more payload wire_len st = record st {
  pieces = insert offset (record { bytes = payload; more = more }) st.pieces;
  bytes = saturating_add st.bytes (added_len payload);
  wire_bytes = saturating_add st.wire_bytes wire_len;
}

-- The cursor of `try_complete` behind all pieces, unless one of them does not start at it.
unfoldable pub contiguous : ℕ → BTreeMap FragmentPiece → Option ℕ
contiguous cursor [] = some cursor
contiguous cursor ((start, piece) ∷ m) =
    let rest = contiguous (saturating_add cursor (length piece.bytes)) m in
    if start == cursor then rest else none

-- `extend_from_slice` of every piece in order.
abbrev pub concat : BTreeMap FragmentPiece → Bytes
concat [] = []
concat ((start, piece) ∷ m) = piece.bytes ++ concat m
