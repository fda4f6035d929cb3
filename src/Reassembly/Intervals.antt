-- ===== src/Reassembly/Intervals.antt =====
-- The reorder buffer of flow/reassembly.rs as disjoint intervals of sequence positions, and the
-- byte that it holds at a position.
use bazalt.Prelude.{
  ℕ, ◌+◌, ◌-◌, ◌≤◌, ◌<◌, ◌≡◌, refl, ap, Option-cases, dec_le, inl, inr, true, ◌&&◌, Option, none,
  some, [], ◌∷◌, length, get_elem?, get_elem?-lt, get_elem?-drop, get_elem?-take, length-drop,
  length-take_le, drop, ◌∙◌, is_some, ltb, leb, if◌then◌else◌, min, u64_max, arith,
}
use bazalt.BTreeMap.{BTreeMap, insert, last_le, first_in}
use bazalt.Reassembly.Types.{Bytes, BufferedSegment}
use bazalt.Reassembly.Insert.{covered_to, piece_end, piece}

-- Segments are not empty, lie in key order from `lo` on without overlap, and end below 2^64.
abbrev pub Spaced : ℕ → BTreeMap BufferedSegment → Type 0
Spaced lo [] = Unit {0}
Spaced lo ((s, seg) ∷ m) =
    (lo ≤ s)
    × (0 < length seg.bytes)
    × (s + length seg.bytes ≤ u64_max)
    × Spaced (s + length seg.bytes) m

-- The number of buffered bytes.
abbrev pub total : BTreeMap BufferedSegment → ℕ
total [] = 0
total ((s, seg) ∷ m) = length seg.bytes + total m

-- The buffered byte at a position of the sequence space.
unfoldable pub byte_at : BTreeMap BufferedSegment → ℕ → Option ℕ
byte_at [] p = none
byte_at ((s, seg) ∷ m) p =
    let rest = byte_at m p in
    if leb s p && ltb p (s + length seg.bytes) then get_elem? seg.bytes (p - s) else rest

pub Spaced-weaken :
    (lo lo' : ℕ) (m : BTreeMap BufferedSegment) → lo' ≤ lo → Spaced lo m → Spaced lo' m
Spaced-weaken lo lo' [] h s = tt
Spaced-weaken lo lo' ((k, seg) ∷ m) h s = (omega arith, s.1, s.2, s.3)

pub Spaced-total :
    (lo : ℕ) (m : BTreeMap BufferedSegment) → Spaced lo m → lo ≤ u64_max → lo + total m ≤ u64_max
Spaced-total lo [] s h = omega arith
Spaced-total lo ((k, seg) ∷ m) s h = omega (arith, Spaced-total (k + length seg.bytes) m s.3 s.2)

pub byte_at-below :
    (lo : ℕ) (m : BTreeMap BufferedSegment) (p : ℕ) → Spaced lo m → p < lo → byte_at m p ≡ none
unfolding byte_at
byte_at-below lo [] p s h = refl
byte_at-below lo ((k, seg) ∷ m) p s h =
    ground (arith, byte_at-below (k + length seg.bytes) m p s.3 (omega arith))

last_le-ge :
    (lo k : ℕ) (m : BTreeMap BufferedSegment) (e : ℕ × BufferedSegment)
    → Spaced lo m
    → last_le k m ≡ some e
    → (lo ≤ e.0) × (e.0 ≤ k)
unfolding last_le
last_le-ge lo k [] e s h = absurd (cc)
last_le-ge lo k ((j, w) ∷ m) e s h = ground (arith, last_le-ge (j + length w.bytes) k m e s.3)

last_le-below :
    (lo k : ℕ) (m : BTreeMap BufferedSegment) → Spaced lo m → k < lo → last_le k m ≡ none
unfolding last_le
last_le-below lo k [] s h = refl
last_le-below lo k ((j, w) ∷ m) s h = ground arith

first_in-ge :
    (lo k end : ℕ) (m : BTreeMap BufferedSegment) (q : ℕ × BufferedSegment)
    → Spaced lo m
    → first_in k end m ≡ some q
    → lo ≤ q.0
unfolding first_in
first_in-ge lo k end [] q s e = absurd (cc)
first_in-ge lo k end ((j, w) ∷ m) q s e =
    ground (arith, first_in-ge (j + length w.bytes) k end m q s.3)

pub first_in-piece_end :
    (k end : ℕ) (m : BTreeMap BufferedSegment) (q : ℕ × BufferedSegment)
    → first_in k end m ≡ some q
    → piece_end k end m ≡ q.0
unfolding piece_end first_in
first_in-piece_end k end m q e = ground arith

pub covered_to-gt :
    (cursor : ℕ) (m : BTreeMap BufferedSegment) {e : ℕ} → covered_to cursor m ≡ some e → cursor < e
unfolding covered_to
covered_to-gt cursor m h = ground arith

-- The cursor lies behind the first segment and the rest does not cover it either.
pub covered_to-cons :
    (lo k j : ℕ) (w : BufferedSegment) (m : BTreeMap BufferedSegment)
    → Spaced lo ((j, w) ∷ m)
    → j ≤ k
    → covered_to k ((j, w) ∷ m) ≡ none
    → (j + length w.bytes ≤ k) × (covered_to k m ≡ none)
unfolding covered_to last_le
covered_to-cons lo k j w m s h e = elim (Option-cases (last_le k m)) [
  | inl f ↦ ground arith
  | inr (q, f) ↦ ground (arith, last_le-ge (j + length w.bytes) k m q s.3 f)
]

pub piece_end-cons :
    (k end j : ℕ) (w : BufferedSegment) (m : BTreeMap BufferedSegment)
    → piece_end k end ((j, w) ∷ m) ≡ (if leb k j then min j end else piece_end k end m)
unfolding piece_end
piece_end-cons k end j w m = ground arith

pub piece_end-le : (k end : ℕ) (m : BTreeMap BufferedSegment) → piece_end k end m ≤ end
unfolding piece_end
piece_end-le k end m = ground arith

-- No byte is buffered between an uncovered cursor and the end of its piece.
pub byte_at-free :
    (lo k end p : ℕ) (m : BTreeMap BufferedSegment)
    → Spaced lo m
    → covered_to k m ≡ none
    → k ≤ p
    → p < piece_end k end m
    → byte_at m p ≡ none
unfolding byte_at
byte_at-free lo k end p [] s c h l = refl
byte_at-free lo k end p ((j, w) ∷ m) s c h l = elim (dec_le j k) [
  | yes le ↦
      let behind = covered_to-cons lo k j w m s le c in
      ground (
        arith,
        behind,
        piece_end-cons k end j w m,
        byte_at-free (j + length w.bytes) k end p m s.3 behind.1 h,
      )
  | no gt ↦ ground (arith, piece_end-cons k end j w m, byte_at-below (j + length w.bytes) m p s.3)
]

-- The last segment that starts at or before `k` holds the bytes from `k` to its end.
byte_at-last_le :
    (lo k p : ℕ) (m : BTreeMap BufferedSegment) (q : ℕ × BufferedSegment)
    → Spaced lo m
    → last_le k m ≡ some q
    → k ≤ p
    → p < q.0 + length q.1.bytes
    → (byte_at m p ≡ get_elem? q.1.bytes (p - q.0)) × (q.0 ≤ k)
unfolding byte_at last_le
byte_at-last_le lo k p [] q s e h l = absurd (cc)
byte_at-last_le lo k p ((j, w) ∷ m) q s e h l = elim (Option-cases (last_le k m)) [
  | inl f ↦ ground arith
  | inr (q', f) ↦ ground (
    arith,
    last_le-ge (j + length w.bytes) k m q' s.3 f,
    byte_at-last_le (j + length w.bytes) k p m q' s.3 f h,
  )
]

-- The byte under a covered cursor is buffered, up to the end of what covers it.
pub byte_at-covered :
    (lo k p e : ℕ) (m : BTreeMap BufferedSegment)
    → Spaced lo m
    → covered_to k m ≡ some e
    → k ≤ p
    → p < e
    → is_some (byte_at m p) ≡ true
unfolding covered_to
byte_at-covered lo k p e m s c h l = elim (Option-cases (last_le k m)) [
  | inl f ↦ ground arith
  | inr (q, f) ↦
      let at = byte_at-last_le lo k p m q s f h (ground arith) in
      let (b, found) = get_elem?-lt q.1.bytes (p - q.0) (ground (arith, at)) in
      ground (arith, at, found)
]

-- A segment put where nothing is buffered keeps the intervals disjoint and adds its bytes.
pub Spaced-insert :
    (lo k end : ℕ) (v : BufferedSegment) (m : BTreeMap BufferedSegment)
    → Spaced lo m
    → lo ≤ k
    → 0 < length v.bytes
    → end ≤ u64_max
    → k + length v.bytes ≤ piece_end k end m
    → covered_to k m ≡ none
    → Spaced lo (insert k v m) × (total (insert k v m) ≡ length v.bytes + total m)
unfolding insert
Spaced-insert lo k end v [] s le pos b fits c = ground (arith, piece_end-le k end [])
Spaced-insert lo k end v ((j, w) ∷ m) s le pos b fits c = elim (dec_le j k) [
  | yes at ↦
      let behind = covered_to-cons lo k j w m s at c in
      ground (
        arith,
        behind,
        piece_end-cons k end j w m,
        Spaced-insert (j + length w.bytes) k end v m s.3 behind.0 pos b,
      )
  | no gt ↦ ground (arith, piece_end-cons k end j w m)
]

pub byte_at-insert :
    (lo k end : ℕ) (v : BufferedSegment) (m : BTreeMap BufferedSegment) (p : ℕ)
    → Spaced lo m
    → 0 < length v.bytes
    → k + length v.bytes ≤ piece_end k end m
    → covered_to k m ≡ none
    → byte_at (insert k v m) p
      ≡ (if leb k p && ltb p (k + length v.bytes) then get_elem? v.bytes (p - k) else byte_at m p)
unfolding byte_at insert
byte_at-insert lo k end v [] p s pos fits c = refl
byte_at-insert lo k end v ((j, w) ∷ m) p s pos fits c = elim (dec_le j k) [
  | yes at ↦
      let behind = covered_to-cons lo k j w m s at c in
      ground (
        arith,
        behind,
        piece_end-cons k end j w m,
        byte_at-insert (j + length w.bytes) k end v m p s.3 pos,
      )
  | no gt ↦ ground (arith, piece_end-cons k end j w m)
]

-- At an uncovered cursor there is room for at least one byte.
pub piece_end-gt :
    (lo k end : ℕ) (m : BTreeMap BufferedSegment)
    → Spaced lo m
    → covered_to k m ≡ none
    → k < end
    → k < piece_end k end m
unfolding piece_end first_in
piece_end-gt lo k end [] s c h = omega arith
piece_end-gt lo k end ((j, w) ∷ m) s c h = elim (dec_le j k) [
  | yes at ↦
      let behind = covered_to-cons lo k j w m s at c in
      ground (
        arith,
        behind,
        piece_end-cons k end j w m,
        piece_end-gt (j + length w.bytes) k end m s.3 behind.1 h,
      )
  | no gt ↦ ground (arith, piece_end-cons k end j w m)
]

-- The first segment from `k` on holds the bytes from its start to its end.
pub byte_at-first_in :
    (lo k end p : ℕ) (m : BTreeMap BufferedSegment) (q : ℕ × BufferedSegment)
    → Spaced lo m
    → first_in k end m ≡ some q
    → q.0 ≤ p
    → p < q.0 + length q.1.bytes
    → is_some (byte_at m p) ≡ true
unfolding byte_at first_in
byte_at-first_in lo k end p [] q s e h l = absurd (cc)
byte_at-first_in lo k end p ((j, w) ∷ m) q s e h l = elim (dec_le k j) [
  | yes at ↦
      let (b, found) = get_elem?-lt q.1.bytes (p - q.0) (ground arith) in ground (arith, found)
  | no gt ↦ ground (
    arith,
    first_in-ge (j + length w.bytes) k end m q s.3,
    byte_at-first_in (j + length w.bytes) k end p m q s.3,
  )
]

pub length-piece :
    (start : ℕ) (bytes : Bytes) (cursor to : ℕ)
    → start ≤ cursor
    → cursor ≤ to
    → to ≤ start + length bytes
    → length (piece start bytes cursor to) ≡ to - cursor
length-piece start bytes cursor to a b c =
    length-take_le (to - cursor) (drop (cursor - start) bytes)
      (omega (arith, length-drop (cursor - start) bytes))

pub get_elem?-piece :
    (start : ℕ) (bytes : Bytes) (cursor to p : ℕ)
    → start ≤ cursor
    → cursor ≤ p
    → p < to
    → get_elem? (piece start bytes cursor to) (p - cursor) ≡ get_elem? bytes (p - start)
get_elem?-piece start bytes cursor to p a b c =
    get_elem?-take (to - cursor) (drop (cursor - start) bytes) (p - cursor) (omega arith)
    ∙ get_elem?-drop (cursor - start) bytes (p - cursor)
    ∙ ap (get_elem? bytes) (omega arith)
