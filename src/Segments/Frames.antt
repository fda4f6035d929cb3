-- ===== src/Segments/Frames.antt =====
-- The records in a file of storage/segment.rs: what the reads find in what the writer has written.
use bazalt.Prelude.{
  ℕ, suc, ◌+◌, ◌^◌, ◌≤◌, ◌<◌, ◌≡◌, refl, ap, ◌∙◌, false, true, List, not, some, [], ◌∷◌, ◌++◌,
  append_assoc, append-nil, length, length-append, is_empty, drop, ltb, ◌==◌, saturating_add, subst,
  arith,
}
use bazalt.Segments.Codec.{Bytes, ContentRecord, le_bytes, encode_record, decode_record}
use bazalt.Segments.Roundtrip.{
  from_le_bytes-le_bytes, take-append, drop-append, IsRecord, decode_record-encode_record,
}
use bazalt.Segments.Files.{
  record_magic, record_header, magic_of, len_of, crc_of, payload_of, read_one, read_record,
  Callback, scan_from, recover_from,
}

-- The callback that keeps the records in order.
abbrev pub collect : Callback (List ContentRecord)
collect r seen = (seen ++ r ∷ [], true)

module _ (lossy : Bytes → Bytes) (crc : Bytes → ℕ) (max : ℕ)
    (crc_fits : (v : Bytes) → crc v < 2 ^ 32) where
  abbrev pub frame : Bytes → Bytes
  frame v = record_header crc (length v) v ++ v

  pub length-record_header : (v : Bytes) → length (record_header crc (length v) v) ≡ 12
  unfolding le_bytes
  length-record_header v = refl

  -- What the first twelve bytes say, whatever follows them.
  pub record IsHeader (v d : Bytes) : Type 0 where
    pub long : ltb (length d) 12 ≡ false
    pub full : is_empty d ≡ false
    pub magic_ok : magic_of d ≡ record_magic
    pub len_ok : len_of d ≡ length v
    pub crc_ok : crc_of d ≡ crc v

  pub record_header-IsHeader :
      (v x : Bytes) → length v < 2 ^ 32 → IsHeader v (record_header crc (length v) v ++ x)
  unfolding le_bytes
  record_header-IsHeader v x h = record {
    long = ground arith;
    full = refl;
    magic_ok = from_le_bytes-le_bytes 4 record_magic (omega arith);
    len_ok = from_le_bytes-le_bytes 4 (length v) (omega arith);
    crc_ok = from_le_bytes-le_bytes 4 (crc v) (omega (arith, crc_fits v));
  }

  drop-record_header : (v x : Bytes) → drop 12 (record_header crc (length v) v ++ x) ≡ x
  unfolding le_bytes
  drop-record_header v x = refl

  -- A record that the file holds as a whole.
  pub record IsWritten (r : ContentRecord) (v : Bytes) : Type 0 where
    pub encodes : encode_record r ≡ some v
    pub valid : IsRecord lossy r
    pub short : length v ≤ max
    pub fits : length v < 2 ^ 32

  decodes : (r : ContentRecord) (v : Bytes) → IsWritten r v → decode_record lossy v ≡ some r
  decodes r v w =
      let back = decode_record-encode_record lossy r v [] w.valid w.encodes in
      subst (λ (d : Bytes). decode_record lossy d ≡ some r) (append-nil v) back

  -- What the reads find in front of a file that goes on with a whole record.
  record Finds (r : ContentRecord) (v d : Bytes) : Type 0 where
    head : IsHeader v d
    reaches : 12 + length v ≤ length d
    fits : length v < 2 ^ 32
    payload : payload_of d ≡ v
    within : ltb max (length v) ≡ false
    decoded : decode_record lossy v ≡ some r

  read_record-Finds :
      (r : ContentRecord) (v d : Bytes)
      → Finds r v d
      → read_record lossy crc max (some (length d)) d ≡ read_one r (12 + length v)
  unfolding read_record
  read_record-Finds r v d s =
      let same : not (crc v == crc v) ≡ false = ground arith in
      let enough : ltb (length d) (12 + length v) ≡ false = ground (arith, s.reaches) in
      let available : ltb (length d) (saturating_add 12 (length v)) ≡ false =
        ground (arith, s.reaches, s.fits) in
      rw
        (
          s.head.full, s.head.long, s.head.magic_ok, s.payload, s.head.crc_ok, s.head.len_ok,
          s.within, available, enough, same, s.decoded,
        )
        (ap (λ (n : ℕ). read_one r (12 + n)) s.head.len_ok)

  recover_from-Finds :
      (r : ContentRecord) (v d : Bytes) (fuel offset : ℕ)
      → Finds r v d
      → recover_from lossy crc max (suc fuel) d offset
        ≡ recover_from lossy crc max fuel (drop (12 + length v) d) (offset + (12 + length v))
  unfolding recover_from
  recover_from-Finds r v d fuel offset s =
      let same : not (crc v == crc v) ≡ false = ground arith in
      let enough : ltb (length d) (12 + length v) ≡ false = ground (arith, s.reaches) in
      rw
        (
          s.head.full, s.head.long, s.head.magic_ok, s.payload, s.head.crc_ok, s.head.len_ok,
          s.within, enough, same, s.decoded,
        )
        (ap (λ (n : ℕ). recover_from lossy crc max fuel (drop (12 + n) d) (offset + (12 + n)))
          s.head.len_ok)

  module _ (r : ContentRecord) (v rest : Bytes) (w : IsWritten r v) where
    shape : frame v ++ rest ≡ record_header crc (length v) v ++ (v ++ rest)
    shape = append_assoc (record_header crc (length v) v) v rest

    is_header : IsHeader v (frame v ++ rest)
    is_header = rw shape (record_header-IsHeader v (v ++ rest) w.fits)

    behind : drop 12 (frame v ++ rest) ≡ v ++ rest
    behind = ap (drop 12) shape ∙ drop-record_header v (v ++ rest)

    finds : Finds r v (frame v ++ rest)
    finds = record {
      head = is_header;
      reaches = omega (
        arith,
        length-append (frame v) rest,
        length-append (record_header crc (length v) v) v,
        length-record_header v,
      );
      fits = w.fits;
      payload = rw (is_header.len_ok, behind) (take-append v rest (length v) refl);
      within = ground (arith, w.short);
      decoded = decodes r v w;
    }

    pub read_record-frame :
        read_record lossy crc max (some (length (frame v ++ rest))) (frame v ++ rest)
        ≡ read_one r (12 + length v)
    read_record-frame = read_record-Finds r v (frame v ++ rest) finds

    pub drop-frame : drop (12 + length v) (frame v ++ rest) ≡ rest
    drop-frame =
        drop-append (frame v) rest (12 + length v)
          (omega (arith, length-append (record_header crc (length v) v) v, length-record_header v))

    pub recover_from-frame :
        (fuel offset : ℕ)
        → recover_from lossy crc max (suc fuel) (frame v ++ rest) offset
          ≡ recover_from lossy crc max fuel rest (offset + (12 + length v))
    recover_from-frame fuel offset =
        recover_from-Finds r v (frame v ++ rest) fuel offset finds
        ∙ ap (λ (d : Bytes). recover_from lossy crc max fuel d (offset + (12 + length v)))
            drop-frame

    pub scan_from-frame :
        (fuel bytes : ℕ) (seen : List ContentRecord)
        → scan_from lossy crc max collect (suc fuel) (frame v ++ rest) bytes seen
          ≡ scan_from lossy crc max collect fuel rest (bytes + (12 + length v)) (seen ++ r ∷ [])
    unfolding scan_from
    scan_from-frame fuel bytes seen =
        rw (read_record-frame, scan_from)
          (ap
            (λ (d : Bytes).
              scan_from lossy crc max collect fuel d (bytes + (12 + length v)) (seen ++ r ∷ []))
            drop-frame)
