-- ===== src/Fragments/Verdicts.antt =====
-- What the checks of `FragmentCache::insert` in capture/fragment.rs establish.
use bazalt.Prelude.{
  ℕ, ◌≤◌, ◌≡◌, refl, ap, ◌∙◌, ◌⊎◌, inl, inr, Bool, true, false, ◌&&◌, Option, none, some, [], ◌∷◌,
  or_else, Option-cases, arith,
}
use bazalt.BTreeMap.{BTreeMap, get}
use bazalt.Fragments.Types.{Bytes, FragmentPiece, FragmentState}
use bazalt.Fragments.Pieces.{
  Verdict, duplicated, fresh, same_bytes, same_flag, any_beyond, declare_total, check_total,
  overlaps_prev, overlaps_next, judge_overlap, judge,
}

-- No piece ends behind the declared length.
abbrev pub IsBounded : FragmentState → Type 0
IsBounded st = (t : ℕ) → st.total_len ≡ some t → any_beyond t st.pieces ≡ false

-- The pieces and the accounting stay as they were; a new fragment overlaps nothing, a repeated one is
-- there, and neither ends behind the declared length.
pub record Judged (offset : ℕ) (more : Bool) (payload : Bytes) (end : ℕ) (st : FragmentState)
    (r : FragmentState × Verdict) : Type 0 where
  pub same_pieces : r.0.pieces ≡ st.pieces
  pub same_count : r.0.bytes ≡ st.bytes
  pub same_wire : r.0.wire_bytes ≡ st.wire_bytes
  pub when_fresh :
      r.1 ≡ fresh
      → (get offset st.pieces ≡ none)
        × (overlaps_prev offset st.pieces ≡ false)
        × (overlaps_next offset end st.pieces ≡ false)
  pub when_duplicated :
      r.1 ≡ duplicated → get offset st.pieces ≡ some (record { bytes = payload; more = more })
  pub when_kept :
      (r.1 ≡ fresh) ⊎ (r.1 ≡ duplicated)
      → IsBounded r.0 × ((t : ℕ) → r.0.total_len ≡ some t → end ≤ t)

same_bytes→eq : (xs ys : Bytes) → same_bytes xs ys ≡ true → xs ≡ ys
same_bytes→eq [] [] h = refl
same_bytes→eq [] (y ∷ ys) h = absurd (cc)
same_bytes→eq (x ∷ xs) [] h = absurd (cc)
same_bytes→eq (x ∷ xs) (y ∷ ys) h =
    let head : x ≡ y = ground arith in let rest : xs ≡ ys = same_bytes→eq xs ys (ground arith) in cc

same_piece :
    (piece : FragmentPiece) (more : Bool) (payload : Bytes)
    → (same_flag piece.more more && same_bytes piece.bytes payload) ≡ true
    → piece ≡ record { bytes = payload; more = more }
same_piece piece more payload h = ground (arith, same_bytes→eq piece.bytes payload)

overlap_fresh :
    (offset : ℕ) (more : Bool) (payload : Bytes) (end : ℕ) (m : BTreeMap FragmentPiece)
    → judge_overlap offset more payload end m ≡ fresh
    → (get offset m ≡ none)
      × (overlaps_prev offset m ≡ false)
      × (overlaps_next offset end m ≡ false)
unfolding judge_overlap
overlap_fresh offset more payload end m h = ground arith

overlap_duplicated :
    (offset : ℕ) (more : Bool) (payload : Bytes) (end : ℕ) (m : BTreeMap FragmentPiece)
    → judge_overlap offset more payload end m ≡ duplicated
    → get offset m ≡ some (record { bytes = payload; more = more })
unfolding judge_overlap
overlap_duplicated offset more payload end m h = elim (Option-cases (get offset m)) [
  | inl e ↦ absurd (ground arith)
  | inr (piece, e) ↦ e ∙ ap some (same_piece piece more payload (ground arith))
]

declare_total_keeps :
    (more : Bool) (end : ℕ) (st : FragmentState)
    → let d = (declare_total more end st).0 in
      (d.pieces ≡ st.pieces) × (d.bytes ≡ st.bytes) × (d.wire_bytes ≡ st.wire_bytes)
unfolding declare_total
declare_total_keeps true end st = (refl, refl, refl)
declare_total_keeps false end st = ground arith

declare_total-IsBounded :
    (more : Bool) (end : ℕ) (st : FragmentState)
    → IsBounded st
    → (declare_total more end st).1 ≡ none
    → IsBounded (declare_total more end st).0
unfolding declare_total
declare_total-IsBounded true end st b h t e = b t e
declare_total-IsBounded false end st b h t e = ground arith

check_total-none :
    (more : Bool) (end : ℕ) (total : Option ℕ) (t : ℕ)
    → check_total more end total ≡ none
    → total ≡ some t
    → end ≤ t
unfolding check_total
check_total-none more end none t h e = absurd (cc)
check_total-none more end (some u) t h e = ground arith

pub judge-Judged :
    (offset : ℕ) (more : Bool) (payload : Bytes) (end : ℕ) (st : FragmentState)
    → IsBounded st
    → Judged offset more payload end st (judge offset more payload end st)
unfolding judge
judge-Judged offset more payload end st b =
    elim (Option-cases (
      or_else (declare_total more end st).1
        (check_total more end (declare_total more end st).0.total_len))) [
          | inr (r, e) ↦ record {
            same_pieces = (declare_total_keeps more end st).0;
            same_count = (declare_total_keeps more end st).1;
            same_wire = (declare_total_keeps more end st).2;
            when_fresh = λ h. absurd (ground arith);
            when_duplicated = λ h. absurd (ground arith);
            when_kept = λ h. absurd (ground arith);
          }
          | inl e ↦ record {
            same_pieces = (declare_total_keeps more end st).0;
            same_count = (declare_total_keeps more end st).1;
            same_wire = (declare_total_keeps more end st).2;
            when_fresh = λ h. ground (
              arith,
              declare_total_keeps more end st,
              overlap_fresh offset more payload end st.pieces,
            );
            when_duplicated = λ h. ground (
              arith,
              declare_total_keeps more end st,
              overlap_duplicated offset more payload end st.pieces,
            );
            when_kept = λ h. (
              declare_total-IsBounded more end st b (ground arith),
              λ t f. check_total-none more end _ t (ground arith) f,
            );
          }
        ]
