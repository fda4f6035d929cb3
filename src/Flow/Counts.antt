-- ===== src/Flow/Counts.antt =====
-- The counts of flows by source prefix in flow/mod.rs.
use bazalt.Prelude.{
  ℕ, ◌-◌, ◌≡◌, refl, sym, ap, ◌∙◌, true, false, Option, none, some, inl, inr, ◌==◌, if◌then◌else◌,
  Bool-cases, Option-cases, saturating_sub, is_some, if_cases, option_cases, ◌⊎◌, arith,
}
use bazalt.HashMap.{HashMap, lookup, put, delete, contains_key}
use bazalt.HashMap.Laws.{
  Distinct, sum_of, lookup-put, lookup-put_other, lookup-delete, lookup-delete_other, put-Distinct,
  delete-Distinct,
}
use bazalt.FlowKeys.Types.{FlowKey}
use bazalt.Flow.Types.{
  SourcePrefix, FlowState, source_prefix_key, same_prefix, same_prefix_iff, flow_key,
}
use bazalt.Flow.Close.{release_source}
use bazalt.Flow.Admission.{count_of, or_default}

-- How many flows have a source prefix.
abbrev pub weight_of : SourcePrefix → SourcePrefix → ℕ
weight_of p q = if same_prefix p q then 1 else 0

abbrev pub weight : SourcePrefix → FlowState → ℕ
weight prefix f = weight_of prefix f.source_prefix

abbrev pub number : SourcePrefix → HashMap FlowKey FlowState → ℕ
number prefix flows = sum_of (weight prefix) flows

abbrev or_zero : Option ℕ → ℕ
or_zero o = elim o as (λ _. ℕ) [ none ↦ 0 | some n ↦ n ]

pub count_of-put :
    (p q : SourcePrefix) (n : ℕ) (m : HashMap SourcePrefix ℕ)
    → count_of p (put q n m) ≡ (if same_prefix p q then n else count_of p m)
count_of-put p q n m = elim (Bool-cases (same_prefix p q)) [
  | inl same ↦
      let eq : p ≡ q = (same_prefix_iff p q).0 same in
      let there : lookup p (put q n m) ≡ some n = rw eq (lookup-put q n m) in
      rw same (ap or_zero there)
  | inr differ ↦ rw differ (ap or_zero (lookup-put_other p q n m differ))
]

count_of-delete :
    (p q : SourcePrefix) (m : HashMap SourcePrefix ℕ)
    → Distinct m
    → count_of p (delete q m) ≡ (if same_prefix p q then 0 else count_of p m)
count_of-delete p q m u = elim (Bool-cases (same_prefix p q)) [
  | inl same ↦
      let eq : p ≡ q = (same_prefix_iff p q).0 same in
      let gone : lookup p (delete q m) ≡ none = rw eq (lookup-delete q m u) in
      rw same (ap or_zero gone)
  | inr differ ↦ rw differ (ap or_zero (lookup-delete_other p q m differ))
]

pub count_of-or_default :
    (p q : SourcePrefix) (m : HashMap SourcePrefix ℕ) → count_of p (or_default q m) ≡ count_of p m
unfolding or_default
count_of-or_default p q m = elim (Option-cases (lookup q m)) [
  | inr found ↦ rw found.1 refl
  | inl missing ↦
      let absent : contains_key q m ≡ false = ap is_some missing in
      rw absent (count_of-put p q 0 m ∙ zero_of (Bool-cases (same_prefix p q)) missing)
]
  where
    zero_of :
        (same_prefix p q ≡ true) ⊎ (same_prefix p q ≡ false)
        → lookup q m ≡ none
        → (if same_prefix p q then 0 else count_of p m) ≡ count_of p m
    zero_of (inl same) missing =
        let eq : p ≡ q = (same_prefix_iff p q).0 same in
        let nothing : lookup p m ≡ none = rw eq missing in rw same (sym (ap or_zero nothing))
    zero_of (inr differ) missing = rw differ refl

pub or_default-Distinct :
    (q : SourcePrefix) (m : HashMap SourcePrefix ℕ) → Distinct m → Distinct (or_default q m)
unfolding or_default
or_default-Distinct q m u =
    if_cases Distinct (contains_key q m) (λ _. u) (λ _. put-Distinct q 0 m u)

count_at :
    (p q : SourcePrefix) (m : HashMap SourcePrefix ℕ) (o : Option ℕ)
    → same_prefix p q ≡ true
    → lookup q m ≡ o
    → count_of p m ≡ or_zero o
count_at p q m o same found =
    let eq : p ≡ q = (same_prefix_iff p q).0 same in
    let here : lookup p m ≡ o = rw eq found in ap or_zero here

pub count_of-release_source :
    (p q : SourcePrefix) (m : HashMap SourcePrefix ℕ)
    → Distinct m
    → count_of p (release_source q m) ≡ (if same_prefix p q then count_of p m - 1 else count_of p m)
unfolding release_source
count_of-release_source p q m u =
    let left : HashMap SourcePrefix ℕ → Type 0 = λ (n : HashMap SourcePrefix ℕ).
      count_of p n ≡ (if same_prefix p q then count_of p m - 1 else count_of p m) in
    let at = λ (o : Option ℕ) (found : lookup q m ≡ o) (same : same_prefix p q ≡ true).
      count_at p q m o same found in
    option_cases left (lookup q m)
      (λ missing. elim (Bool-cases (same_prefix p q)) [
        | inl same ↦ rw same (omega (arith, at none missing same))
        | inr differ ↦ rw differ refl
      ])
      (λ n found.
        if_cases left (saturating_sub n 1 == 0)
          (λ last.
            count_of-delete p q (put q (saturating_sub n 1) m)
              (put-Distinct q (saturating_sub n 1) m u)
            ∙ elim (Bool-cases (same_prefix p q)) [
              | inl same ↦ rw same (ground (arith, last, at (some n) found same))
              | inr differ ↦ rw differ (count_of-put p q (saturating_sub n 1) m ∙ rw differ refl)
            ])
          (λ more. count_of-put p q (saturating_sub n 1) m ∙ elim (Bool-cases (same_prefix p q)) [
            | inl same ↦ rw same (omega (arith, at (some n) found same))
            | inr differ ↦ rw differ refl
          ]))

pub release_source-Distinct :
    (q : SourcePrefix) (m : HashMap SourcePrefix ℕ) → Distinct m → Distinct (release_source q m)
unfolding release_source
release_source-Distinct q m u =
    option_cases Distinct (lookup q m) (λ _. u)
      (λ n found.
        if_cases Distinct (saturating_sub n 1 == 0)
          (λ _. delete-Distinct q _ (put-Distinct q _ m u)) (λ _. put-Distinct q _ m u))
