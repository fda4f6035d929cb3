-- ===== src/Fragments/Intervals.antt =====
-- The pieces of a datagram in capture/fragment.rs as disjoint intervals, and the byte at a position.
use bazalt.Prelude.{
  ℕ, zero, suc, ◌+◌, ◌-◌, ◌≤◌, ◌<◌, ◌≡◌, refl, ap, ◌∙◌, inl, inr, false, ◌&&◌, Option, none, some,
  List, [], ◌∷◌, ◌++◌, length, length-append, get_elem?, get_elem?-lt, ltb, leb, if◌then◌else◌,
  or_else, max, Option-cases, dec_le, dec_lt, arith,
}
use bazalt.BTreeMap.{BTreeMap, insert, get, last_lt, first_ge}
use bazalt.Fragments.Types.{Bytes, FragmentPiece, fragment_piece_overhead}
use bazalt.Fragments.Pieces.{any_beyond, overlaps_prev, overlaps_next, contiguous, concat}

-- Pieces lie in key order from `lo` on without overlap, and end within 64 KiB.
abbrev pub Spaced : ℕ → BTreeMap FragmentPiece → Type 0
Spaced lo [] = Unit {0}
Spaced lo ((s, piece) ∷ m) =
    (lo ≤ s) × (s + length piece.bytes ≤ 65_535) × Spaced (max (suc s) (s + length piece.bytes)) m

-- What the pieces count for in the cache's accounting.
abbrev pub cost : BTreeMap FragmentPiece → ℕ
cost [] = 0
cost ((s, piece) ∷ m) = length piece.bytes + fragment_piece_overhead + cost m

-- The byte of the datagram at a position.
unfoldable pub byte_at : BTreeMap FragmentPiece → ℕ → Option ℕ
byte_at [] p = none
byte_at ((s, piece) ∷ m) p =
    let rest = byte_at m p in
    if leb s p && ltb p (s + length piece.bytes) then get_elem? piece.bytes (p - s) else rest

-- The byte of a fragment at a position.
abbrev pub fragment_byte : ℕ → Bytes → ℕ → Option ℕ
fragment_byte offset payload p = if leb offset p then get_elem? payload (p - offset) else none

get_elem?-ge {ℓ} : {A : Type ℓ} (xs : List A) (i : ℕ) → length xs ≤ i → get_elem? xs i ≡ none
get_elem?-ge [] i h = refl
get_elem?-ge (x ∷ xs) zero h = absurd (omega arith)
get_elem?-ge (x ∷ xs) (suc i) h = get_elem?-ge xs i (omega arith)

get_elem?-append {ℓ} :
    {A : Type ℓ} (xs ys : List A) (i : ℕ)
    → get_elem? (xs ++ ys) i
      ≡ (if ltb i (length xs) then get_elem? xs i else get_elem? ys (i - length xs))
get_elem?-append [] ys i = ground arith
get_elem?-append (x ∷ xs) ys zero = ground arith
get_elem?-append (x ∷ xs) ys (suc i) = ground (arith, get_elem?-append xs ys i)

pub byte_at-below :
    (lo : ℕ) (m : BTreeMap FragmentPiece) (p : ℕ) → Spaced lo m → p < lo → byte_at m p ≡ none
unfolding byte_at
byte_at-below lo [] p s h = refl
byte_at-below lo ((k, w) ∷ m) p s h =
    ground (arith, byte_at-below (max (suc k) (k + length w.bytes)) m p s.2 (omega arith))

last_lt-ge :
    (lo k : ℕ) (m : BTreeMap FragmentPiece) (e : ℕ × FragmentPiece)
    → Spaced lo m
    → last_lt k m ≡ some e
    → (lo ≤ e.0) × (e.0 < k)
unfolding last_lt
last_lt-ge lo k [] e s h = absurd (cc)
last_lt-ge lo k ((j, w) ∷ m) e s h =
    ground (arith, last_lt-ge (max (suc j) (j + length w.bytes)) k m e s.2)

-- The offset lies behind the first piece, which does not reach over it, nor does a later one.
pub overlaps_prev-cons :
    (lo k j : ℕ) (w : FragmentPiece) (m : BTreeMap FragmentPiece)
    → Spaced lo ((j, w) ∷ m)
    → j < k
    → overlaps_prev k ((j, w) ∷ m) ≡ false
    → (j + length w.bytes ≤ k) × (overlaps_prev k m ≡ false)
unfolding overlaps_prev last_lt
overlaps_prev-cons lo k j w m s h e = elim (Option-cases (last_lt k m)) [
  | inl f ↦ ground arith
  | inr (q, f) ↦ ground (arith, last_lt-ge (max (suc j) (j + length w.bytes)) k m q s.2 f)
]

pub Spaced-insert :
    (lo k : ℕ) (v : FragmentPiece) (m : BTreeMap FragmentPiece)
    → Spaced lo m
    → lo ≤ k
    → k + length v.bytes ≤ 65_535
    → get k m ≡ none
    → overlaps_prev k m ≡ false
    → overlaps_next k (k + length v.bytes) m ≡ false
    → Spaced lo (insert k v m)
      × (cost (insert k v m) ≡ length v.bytes + fragment_piece_overhead + cost m)
unfolding insert get overlaps_next first_ge
Spaced-insert lo k v [] s le b g p n = omega arith
Spaced-insert lo k v ((j, w) ∷ m) s le b g p n = elim (dec_lt j k) [
  | yes lt ↦
      let behind = overlaps_prev-cons lo k j w m s lt p in
      ground (
        arith,
        behind,
        Spaced-insert (max (suc j) (j + length w.bytes)) k v m s.2 (omega (arith, behind.0)) b
            (ground arith) behind.1,
      )
  | no ge ↦ ground arith
]

-- No byte is there between the offset and the end of a fragment that overlaps nothing.
pub byte_at-free :
    (lo k end p : ℕ) (m : BTreeMap FragmentPiece)
    → Spaced lo m
    → get k m ≡ none
    → overlaps_prev k m ≡ false
    → overlaps_next k end m ≡ false
    → k ≤ p
    → p < end
    → byte_at m p ≡ none
unfolding byte_at get overlaps_next first_ge
byte_at-free lo k end p [] s g o n le lt = refl
byte_at-free lo k end p ((j, w) ∷ m) s g o n le lt = elim (dec_lt j k) [
  | yes before ↦
      let behind = overlaps_prev-cons lo k j w m s before o in
      ground (
        arith,
        behind,
        byte_at-free (max (suc j) (j + length w.bytes)) k end p m s.2 (ground arith) behind.1
            (ground arith) le lt,
      )
  | no after ↦
      ground (arith, byte_at-below (max (suc j) (j + length w.bytes)) m p s.2 (ground arith))
]

pub byte_at-insert :
    (lo k : ℕ) (v : FragmentPiece) (m : BTreeMap FragmentPiece) (p : ℕ)
    → Spaced lo m
    → get k m ≡ none
    → overlaps_prev k m ≡ false
    → overlaps_next k (k + length v.bytes) m ≡ false
    → byte_at (insert k v m) p
      ≡ (if leb k p && ltb p (k + length v.bytes) then get_elem? v.bytes (p - k) else byte_at m p)
unfolding byte_at insert get overlaps_next first_ge
byte_at-insert lo k v [] p s g o n = refl
byte_at-insert lo k v ((j, w) ∷ m) p s g o n = elim (dec_lt j k) [
  | yes before ↦
      let behind = overlaps_prev-cons lo k j w m s before o in
      ground (
        arith,
        behind,
        byte_at-insert (max (suc j) (j + length w.bytes)) k v m p s.2 (ground arith) behind.1
            (ground arith),
      )
  | no after ↦ ground arith
]

-- The bytes after a new piece: those before, and the fragment's in the rest.
pub byte_at-stored :
    (k : ℕ) (v : FragmentPiece) (m : BTreeMap FragmentPiece) (p : ℕ)
    → Spaced 0 m
    → get k m ≡ none
    → overlaps_prev k m ≡ false
    → overlaps_next k (k + length v.bytes) m ≡ false
    → byte_at (insert k v m) p ≡ or_else (byte_at m p) (fragment_byte k v.bytes p)
byte_at-stored k v m p s g o n = elim (dec_le k p) [
  | yes le ↦ elim (dec_lt p (k + length v.bytes)) [
    | yes lt ↦ ground (
      arith,
      byte_at-insert 0 k v m p s g o n,
      byte_at-free 0 k (k + length v.bytes) p m s g o n le lt,
    )
    | no ge ↦ ground (
      arith,
      byte_at-insert 0 k v m p s g o n,
      get_elem?-ge v.bytes (p - k) (omega arith),
      Option-cases (byte_at m p),
    )
  ]
  | no gt ↦ ground (arith, byte_at-insert 0 k v m p s g o n, Option-cases (byte_at m p))
]

-- The piece at a key holds the bytes of its interval.
pub byte_at-get :
    (lo k p : ℕ) (m : BTreeMap FragmentPiece) (v : FragmentPiece)
    → Spaced lo m
    → get k m ≡ some v
    → k ≤ p
    → p < k + length v.bytes
    → (byte_at m p ≡ get_elem? v.bytes (p - k)) × (lo ≤ k)
unfolding byte_at get
byte_at-get lo k p [] v s g le lt = absurd (cc)
byte_at-get lo k p ((j, w) ∷ m) v s g le lt =
    ground (arith, byte_at-get (max (suc j) (j + length w.bytes)) k p m v s.2)

-- A fragment that repeats a piece adds no byte.
pub byte_at-repeated :
    (k p : ℕ) (m : BTreeMap FragmentPiece) (v : FragmentPiece)
    → Spaced 0 m
    → get k m ≡ some v
    → byte_at m p ≡ or_else (byte_at m p) (fragment_byte k v.bytes p)
byte_at-repeated k p m v s g = elim (dec_le k p) [
  | yes le ↦ elim (dec_lt p (k + length v.bytes)) [
    | yes lt ↦
        let (b, found) = get_elem?-lt v.bytes (p - k) (omega arith) in
        ground (arith, byte_at-get 0 k p m v s g le lt, found)
    | no ge ↦ ground (arith, get_elem?-ge v.bytes (p - k) (omega arith), Option-cases (byte_at m p))
  ]
  | no gt ↦ ground (arith, Option-cases (byte_at m p))
]

-- Pieces that follow one another from `c` on are the bytes from `c` on.
pub concat-contiguous :
    (lo c : ℕ) (m : BTreeMap FragmentPiece) {total : ℕ}
    → Spaced lo m
    → contiguous c m ≡ some total
    → (i : ℕ) → (get_elem? (concat m) i ≡ byte_at m (c + i)) × (c + length (concat m) ≡ total)
unfolding contiguous byte_at
concat-contiguous lo c [] s e i = (refl, ground arith)
concat-contiguous lo c ((j, w) ∷ m) {total} s e i =
    let rest : contiguous (c + length w.bytes) m ≡ some total = ground arith in
    let ih = concat-contiguous (max (suc j) (j + length w.bytes)) (c + length w.bytes) m s.2 rest in
    let at : j ≡ c = ground arith in
    let size : c + length (w.bytes ++ concat m) ≡ total =
      omega (arith, length-append w.bytes (concat m), (ih 0).1) in
    elim (dec_lt i (length w.bytes)) [
      | yes lt ↦
          let here : c + i - j ≡ i = omega arith in
          (ground (arith, get_elem?-append w.bytes (concat m) i, ap (get_elem? w.bytes) here), size)
      | no ge ↦
          let there : c + length w.bytes + (i - length w.bytes) ≡ c + i = omega arith in
          (
            ground (
              arith,
              get_elem?-append w.bytes (concat m) i,
              (ih (i - length w.bytes)).0 ∙ ap (byte_at m) there,
            ),
            size,
          )
    ]

pub any_beyond-insert :
    (t k : ℕ) (v : FragmentPiece) (m : BTreeMap FragmentPiece)
    → any_beyond t m ≡ false
    → k + length v.bytes ≤ t
    → any_beyond t (insert k v m) ≡ false
unfolding insert
any_beyond-insert t k v [] h le = ground arith
any_beyond-insert t k v ((j, w) ∷ m) h le = ground (arith, any_beyond-insert t k v m)
