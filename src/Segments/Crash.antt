-- ===== src/Segments/Crash.antt =====
-- The writer of storage/segment.rs, and what a crash in its last write leaves.
use bazalt.Prelude.{
  ℕ, ◌+◌, ◌-◌, ◌^◌, ◌≤◌, ◌<◌, ◌≡◌, refl, sym, ap, ◌∙◌, Option, none, some, List, [], ◌∷◌, ◌++◌,
  append_assoc, append-nil, length, length-append, take, ltb, saturating_add, if_cases, subst,
  arith,
}
use bazalt.Segments.Codec.{Bytes, ContentRecord, ◌>>=◌, encode_record_prefix, encode_record}
use bazalt.Segments.Roundtrip.{IsRecord}
use bazalt.Segments.Files.{
  write_header, ActiveWriter, new_writer, PreparedRecord, prepare_record, record_header,
  write_prepared, write_record, scan_path, kept, recover_last_segment_tail,
}
use bazalt.Segments.Frames.{collect, frame, IsWritten}
use bazalt.Segments.Recovery.{
  AreWritten, length-frame, take-append_more, scan_path-AreWritten, recover_last_segment_tail-take,
}

-- The records one after another, as the writer appends them.
unfoldable pub write_records : (Bytes → ℕ) → List ContentRecord → ActiveWriter → Option ActiveWriter
write_records crc [] w = some w
write_records crc (r ∷ rs) w = write_record crc r w >>= λ (offset, next). write_records crc rs next

abbrev pub AllRecords : (Bytes → Bytes) → List ContentRecord → Type 0
AllRecords lossy [] = Unit {0}
AllRecords lossy (r ∷ rs) = IsRecord lossy r × AllRecords lossy rs

pub bind_cases {ℓ κ μ} :
    {A : Type ℓ} {B : Type κ} (P : Option B → Type μ) (o : Option A) (f : A → Option B)
    → P none
    → ((a : A) → o ≡ some a → P (f a))
    → P (o >>= f)
bind_cases P none f n s = n
bind_cases P (some a) f n s = s a refl

-- What `prepare_record` has checked.
pub record Prepares (r : ContentRecord) (w : ActiveWriter) (p : PreparedRecord) : Type 0 where
  pub encodes : encode_record_prefix r ≡ some p.prefix
  pub size : p.payload_len ≡ length p.prefix + length r.bytes
  pub short : p.payload_len ≤ w.max_record_bytes
  pub fits : p.payload_len < 2 ^ 32
  pub whole : p.encoded_len ≡ 12 + p.payload_len

abbrev pub Prepared : ContentRecord → ActiveWriter → Option PreparedRecord → Type 0
Prepared r w none = Unit {0}
Prepared r w (some p) = Prepares r w p

pub prepare_record-Prepared :
    (r : ContentRecord) (w : ActiveWriter) → Prepared r w (prepare_record r w)
unfolding prepare_record
prepare_record-Prepared r w =
    bind_cases (Prepared r w) (encode_record_prefix r) _ tt (λ prefix found.
      let n = saturating_add (length prefix) (length r.bytes) in
      if_cases (Prepared r w) (ltb (2 ^ 32 - 1) n) (λ long. tt)
        (λ fits.
          if_cases (Prepared r w) (ltb w.max_record_bytes n) (λ long. tt)
            (λ short.
              if_cases (Prepared r w)
                (ltb w.store_max_bytes (saturating_add w.retained_bytes (12 + n))) (λ full. tt)
                (λ room. record {
                  encodes = found;
                  size = ground (arith, fits);
                  short = ground (arith, short);
                  fits = ground (arith, fits);
                  whole = refl;
                }))))

module _ (lossy : Bytes → Bytes) (crc : Bytes → ℕ) (crc_fits : (v : Bytes) → crc v < 2 ^ 32) where
  -- The writer has appended the record.
  pub record Appends (r : ContentRecord) (w next : ActiveWriter) : Type 0 where
    pub payload : Bytes
    pub written : IsWritten lossy crc w.max_record_bytes crc_fits r payload
    pub file : next.file ≡ w.file ++ frame lossy crc w.max_record_bytes crc_fits payload
    pub limit : next.max_record_bytes ≡ w.max_record_bytes

  abbrev pub Wrote : ContentRecord → ActiveWriter → Option (ℕ × ActiveWriter) → Type 0
  Wrote r w none = Unit {0}
  Wrote r w (some t) = Appends r w t.1

  pub write_prepared-Wrote :
      (r : ContentRecord) (p : PreparedRecord) (w : ActiveWriter)
      → IsRecord lossy r
      → Prepares r w p
      → Wrote r w (write_prepared crc r p w)
  unfolding write_prepared encode_record
  write_prepared-Wrote r p w valid ready =
      if_cases (Wrote r w) (ltb w.store_max_bytes (saturating_add w.retained_bytes p.encoded_len))
        (λ full. tt)
        (λ room.
          let v = p.prefix ++ r.bytes in
          let size : length v ≡ p.payload_len =
            omega (arith, length-append p.prefix r.bytes, ready.size) in
          record {
            payload = v;
            written = record {
              encodes = rw ready.encodes refl;
              valid = valid;
              short = omega (arith, size, ready.short);
              fits = omega (arith, size, ready.fits);
            };
            file = ap (λ (n : ℕ). w.file ++ (record_header crc n v ++ v)) (sym size);
            limit = refl;
          })

  write_record-Wrote :
      (r : ContentRecord) (w : ActiveWriter) → IsRecord lossy r → Wrote r w (write_record crc r w)
  unfolding write_record
  write_record-Wrote r w valid =
      bind_cases (Wrote r w) (prepare_record r w) (λ p. write_prepared crc r p w) tt
        (λ p found.
          write_prepared-Wrote r p w valid
            (subst (Prepared r w) found (prepare_record-Prepared r w)))

  -- The records stand behind what the file held.
  record Holds (rs : List ContentRecord) (w next : ActiveWriter) : Type 0 where
    body : Bytes
    written : AreWritten lossy crc crc_fits w.max_record_bytes rs body
    file : next.file ≡ w.file ++ body
    limit : next.max_record_bytes ≡ w.max_record_bytes

  abbrev Held : List ContentRecord → ActiveWriter → Option ActiveWriter → Type 0
  Held rs w none = Unit {0}
  Held rs w (some next) = Holds rs w next

  Appends-Held :
      (r : ContentRecord) (rs : List ContentRecord) (w middle : ActiveWriter)
      (o : Option ActiveWriter)
      → Appends r w middle
      → Held rs middle o
      → Held (r ∷ rs) w o
  Appends-Held r rs w middle none a h = tt
  Appends-Held r rs w middle (some next) a h =
      let f = frame lossy crc w.max_record_bytes crc_fits a.payload in
      let rest : AreWritten lossy crc crc_fits w.max_record_bytes rs h.body =
        subst (λ (max : ℕ). AreWritten lossy crc crc_fits max rs h.body) a.limit h.written in
      record {
        body = f ++ h.body;
        written = (a.payload, h.body, a.written, refl, rest);
        file = h.file ∙ ap (λ (x : Bytes). x ++ h.body) a.file ∙ append_assoc w.file f h.body;
        limit = h.limit ∙ a.limit;
      }

  write_records-Held :
      (rs : List ContentRecord) (w : ActiveWriter)
      → AllRecords lossy rs
      → Held rs w (write_records crc rs w)
  unfolding write_records
  write_records-Held [] w valid = record {
    body = [];
    written = refl;
    file = sym (append-nil w.file);
    limit = refl;
  }
  write_records-Held (r ∷ rs) w valid =
      bind_cases (Held (r ∷ rs) w) (write_record crc r w) _ tt (λ (t : ℕ × ActiveWriter) found.
        Appends-Held r rs w t.1 (write_records crc rs t.1)
          (subst (Wrote r w) found (write_record-Wrote r w valid.0))
          (write_records-Held rs t.1 valid.1))

  -- A crash in the middle of a write, with any bytes of the last record on disk or none: the recovery
  -- cuts the file back to what stood before that write, and the scan of it gives all records written
  -- before, in order, and the number of its bytes. For a fresh segment, any records that the codec can give back, any limits under
  -- which the writes succeed, and a checksum of four bytes.
  pub crash_lem :
      (max_bytes max_record_bytes store_max_bytes retained_bytes created : ℕ)
      (rs : List ContentRecord) (r : ContentRecord) (offset n : ℕ) (w next : ActiveWriter)
      → AllRecords lossy rs
      → IsRecord lossy r
      → write_records crc rs
          (new_writer max_bytes max_record_bytes store_max_bytes retained_bytes created)
        ≡ some w
      → write_record crc r w ≡ some (offset, next)
      → length w.file ≤ n
      → n < length next.file
      → (recover_last_segment_tail lossy crc max_record_bytes (take n next.file) ≡ kept w.file)
        × (scan_path lossy crc max_record_bytes collect w.file [] ≡ (rs, some (length w.file)))
  unfolding new_writer
  crash_lem max_bytes max_record_bytes store_max_bytes retained_bytes created rs r offset n w next
        valid last before after from to =
      let start = new_writer max_bytes max_record_bytes store_max_bytes retained_bytes created in
      let h : Holds rs start w = subst (Held rs start) before (write_records-Held rs start valid) in
      let a : Appends r w next = subst (Wrote r w) after (write_record-Wrote r w last) in
      let f = frame lossy crc max_record_bytes crc_fits a.payload in
      let k = n - length w.file in
      let written : IsWritten lossy crc max_record_bytes crc_fits r a.payload =
        subst (λ (max : ℕ). IsWritten lossy crc max crc_fits r a.payload) h.limit a.written in
      let size : length next.file ≡ length w.file + (12 + length a.payload) = omega (
        arith,
        ap length a.file,
        length-append w.file f,
        length-frame lossy crc crc_fits max_record_bytes a.payload,
      ) in
      let place : n ≡ length w.file + k = omega arith in
      let cut : take n next.file ≡ w.file ++ take k f =
        ap (take n) a.file
        ∙ ap (λ (m : ℕ). take m (w.file ++ f)) place
        ∙ take-append_more lossy crc crc_fits max_record_bytes w.file f k in
      let whole : w.file ++ take k f ≡ (write_header created ++ h.body) ++ take k f =
        ap (λ (x : Bytes). x ++ take k f) h.file in
      let recovered =
        recover_last_segment_tail-take lossy crc crc_fits max_record_bytes created rs h.body
          h.written r a.payload k written (omega arith) in
      (
        ap (recover_last_segment_tail lossy crc max_record_bytes) (cut ∙ whole)
            ∙ recovered
            ∙ ap kept (sym h.file),
        ap (λ (x : Bytes). scan_path lossy crc max_record_bytes collect x []) h.file
            ∙ scan_path-AreWritten lossy crc crc_fits max_record_bytes created rs h.body h.written
            ∙ ap (λ (n : ℕ). (rs, some n)) (sym (ap length h.file)),
      )
