-- ===== src/Segments/Recovery.antt =====
-- A segment file of storage/segment.rs that a crash has cut off: the recovery and the scan.
use bazalt.Prelude.{
  ℕ, zero, suc, ◌+◌, ◌-◌, ◌^◌, ◌≤◌, ◌<◌, ◌≡◌, inl, inr, refl, sym, ap, ◌∙◌, true, false, Option,
  some, List, [], ◌∷◌, ◌++◌, append_assoc, append-nil, length, length-append, length-take_le,
  is_empty, take, ltb, if_cases, Bool-cases, subst, arith,
}
use bazalt.Segments.Codec.{Bytes, ContentRecord, le_bytes, from_le_bytes}
use bazalt.Segments.Roundtrip.{take-append}
use bazalt.Segments.Files.{
  header_size, write_header, read_header, record_header, read_record, scan_from, scan_path,
  recover_from, kept, recover_last_segment_tail,
}
use bazalt.Segments.Frames.{
  collect, frame, length-record_header, IsHeader, record_header-IsHeader, IsWritten,
  recover_from-frame, scan_from-frame,
}

module _ (lossy : Bytes → Bytes) (crc : Bytes → ℕ) (crc_fits : (v : Bytes) → crc v < 2 ^ 32) where
  module _ (max : ℕ) where
    -- The bytes of the records one after another.
    abbrev pub AreWritten : List ContentRecord → Bytes → Type 0
    AreWritten [] d = d ≡ []
    AreWritten (r ∷ rs) d =
        (v : Bytes) × (rest : Bytes) × IsWritten lossy crc max crc_fits r v
        × (d ≡ frame lossy crc max crc_fits v ++ rest)
        × AreWritten rs rest

    pub length-frame : (v : Bytes) → length (frame lossy crc max crc_fits v) ≡ 12 + length v
    length-frame v = omega (
      arith,
      length-append (record_header crc (length v) v) v,
      length-record_header lossy crc max crc_fits v,
    )

    scan_from-AreWritten :
        (rs : List ContentRecord) (d : Bytes) (fuel bytes : ℕ) (seen : List ContentRecord)
        → AreWritten rs d
        → length d < fuel
        → scan_from lossy crc max collect fuel d bytes seen ≡ (seen ++ rs, some (bytes + length d))
    unfolding scan_from read_record
    scan_from-AreWritten rs d zero bytes seen a h = absurd (omega arith)
    scan_from-AreWritten [] d (suc fuel) bytes seen a h =
        let whole : seen ++ [] ≡ seen = append-nil seen in
        let more : bytes + 0 ≡ bytes = omega arith in rw (a, whole, more) refl
    scan_from-AreWritten (r ∷ rs) d (suc fuel) bytes seen (v, rest, w, shape, a) h =
        let deep = scan_from-AreWritten rs rest fuel (bytes + (12 + length v)) (seen ++ r ∷ []) a (
          omega (
            arith,
            h,
            ap length shape,
            length-append (frame lossy crc max crc_fits v) rest,
            length-frame v,
          )) in
        let size : bytes + (12 + length v) + length rest ≡ bytes + length d = omega (
          arith,
          ap length shape,
          length-append (frame lossy crc max crc_fits v) rest,
          length-frame v,
        ) in
        ap (λ (x : Bytes). scan_from lossy crc max collect (suc fuel) x bytes seen) shape
        ∙ scan_from-frame lossy crc max crc_fits r v rest w fuel bytes seen
        ∙ deep
        ∙ ap (λ (n : ℕ). ((seen ++ r ∷ []) ++ rs, some n)) size
        ∙ ap (λ (x : List ContentRecord). (x, some (bytes + length d)))
            (append_assoc seen (r ∷ []) rs)

    recover_from-AreWritten :
        (rs : List ContentRecord) (d tail : Bytes) (fuel offset : ℕ)
        → ((n o : ℕ) → recover_from lossy crc max (suc n) tail o ≡ some o)
        → AreWritten rs d
        → length (d ++ tail) < fuel
        → recover_from lossy crc max fuel (d ++ tail) offset ≡ some (offset + length d)
    recover_from-AreWritten rs d tail zero offset e a h = absurd (omega arith)
    recover_from-AreWritten [] d tail (suc fuel) offset e a h =
        rw a (e fuel offset ∙ ap some (omega arith))
    recover_from-AreWritten (r ∷ rs) d tail (suc fuel) offset e (v, rest, w, shape, a) h =
        let f = frame lossy crc max crc_fits v in
        let size : length d ≡ 12 + length v + length rest =
          omega (arith, ap length shape, length-append f rest, length-frame v) in
        let whole : d ++ tail ≡ f ++ (rest ++ tail) =
          ap (λ (x : Bytes). x ++ tail) shape ∙ append_assoc f rest tail in
        let deep =
          recover_from-AreWritten rs rest tail fuel (offset + (12 + length v)) e a
            (omega (arith, h, length-append d tail, length-append rest tail, size)) in
        rw whole (
          recover_from-frame lossy crc max crc_fits r v (rest ++ tail) w fuel offset
          ∙ deep
          ∙ ap some (omega (arith, size)))

    -- A tail that is too short for a header, or for the payload that its header announces.
    recover_from_short :
        (d : Bytes) (n o : ℕ) → length d < 12 → recover_from lossy crc max (suc n) d o ≡ some o
    unfolding recover_from
    recover_from_short d n o h =
        let short : ltb (length d) 12 ≡ true = ground arith in
        if_cases (λ (x : Option ℕ). x ≡ some o) (is_empty d) (λ _. refl) (λ _. rw short refl)

    recover_from_headed :
        (v d : Bytes) (n o : ℕ)
        → IsHeader lossy crc max crc_fits v d
        → length v ≤ max
        → length d < 12 + length v
        → recover_from lossy crc max (suc n) d o ≡ some o
    unfolding recover_from
    recover_from_headed v d n o head fits h =
        let within : ltb max (length v) ≡ false = ground arith in
        let cut_off : ltb (length d) (12 + length v) ≡ true = ground arith in
        rw (head.full, head.long, head.magic_ok, head.len_ok, within, cut_off) refl

    pub take-append_more :
        (xs ys : Bytes) (j : ℕ) → take (length xs + j) (xs ++ ys) ≡ xs ++ take j ys
    take-append_more [] ys j = ap (λ (n : ℕ). take n ys) (omega arith)
    take-append_more (x ∷ xs) ys j =
        let e : suc (length xs) + j ≡ suc (length xs + j) = omega arith in
        rw e (ap (λ (l : Bytes). x ∷ l) (take-append_more xs ys j))

    -- What a crash leaves of the last write: its first bytes.
    recover_from-take :
        (r : ContentRecord) (v : Bytes) (k : ℕ)
        → IsWritten lossy crc max crc_fits r v
        → k < 12 + length v
        → (n o : ℕ)
        → recover_from lossy crc max (suc n) (take k (frame lossy crc max crc_fits v)) o ≡ some o
    recover_from-take r v k w h n o =
        let f = frame lossy crc max crc_fits v in
        let size : length (take k f) ≡ k = length-take_le k f (omega (arith, length-frame v)) in
        elim (Bool-cases (ltb k 12)) [
          | inl short ↦ recover_from_short (take k f) n o (ground (arith, size, short))
          | inr long ↦
              let head = record_header crc (length v) v in
              let split : k ≡ length head + (k - 12) =
                ground (arith, long, length-record_header lossy crc max crc_fits v) in
              let shape : take k f ≡ head ++ take (k - 12) v =
                ap (λ (m : ℕ). take m f) split ∙ take-append_more head v (k - 12) in
              let headed : IsHeader lossy crc max crc_fits v (take k f) =
                subst (IsHeader lossy crc max crc_fits v) (sym shape)
                  (record_header-IsHeader lossy crc max crc_fits v (take (k - 12) v) w.fits) in
              recover_from_headed v (take k f) n o headed w.short (omega (arith, size))
        ]

    -- The file as a whole.
    module _ (created : ℕ) (rs : List ContentRecord) (body : Bytes) (a : AreWritten rs body) where
      read_header-write_header : (x : Bytes) → read_header (write_header created ++ x) ≡ some x
      unfolding read_header write_header le_bytes from_le_bytes
      read_header-write_header x =
          let d = write_header created ++ x in
          let long : ltb (length d) header_size ≡ false = ground arith in rw long refl

      length-write_header : length (write_header created) ≡ header_size
      unfolding write_header le_bytes
      length-write_header = refl

      pub scan_path-AreWritten :
          let file = write_header created ++ body in
          scan_path lossy crc max collect file [] ≡ (rs, some (length file))
      unfolding scan_path
      scan_path-AreWritten =
          let n : header_size + length body ≡ length (write_header created ++ body) =
            omega (arith, length-append (write_header created) body, length-write_header) in
          rw (scan_path, read_header-write_header body)
            (scan_from-AreWritten rs body (length body + 1) header_size [] a (omega arith)
              ∙ ap (λ (k : ℕ). (rs, some k)) n)

      pub recover_last_segment_tail-take :
          (r : ContentRecord) (v : Bytes) (k : ℕ)
          → IsWritten lossy crc max crc_fits r v
          → k < 12 + length v
          → recover_last_segment_tail lossy crc max
              ((write_header created ++ body) ++ take k (frame lossy crc max crc_fits v))
            ≡ kept (write_header created ++ body)
      unfolding recover_last_segment_tail
      recover_last_segment_tail-take r v k w h =
          let t = take k (frame lossy crc max crc_fits v) in
          let header = write_header created in
          let whole = (header ++ body) ++ t in
          let shape : whole ≡ header ++ (body ++ t) = append_assoc header body t in
          let long : ltb (length whole) header_size ≡ false = ground (
            arith,
            length-append (header ++ body) t,
            length-append header body,
            length-write_header,
          ) in
          let opened : read_header whole ≡ some (body ++ t) =
            ap read_header shape ∙ read_header-write_header (body ++ t) in
          let found =
            recover_from-AreWritten rs body t (length (body ++ t) + 1) header_size
              (recover_from-take r v k w h) a (omega arith) in
          let back : take (header_size + length body) whole ≡ header ++ body =
            take-append (header ++ body) t (header_size + length body)
              (omega (arith, length-append header body, length-write_header)) in
          rw (long, opened, found, back) refl
