-- ===== src/Segments/Reads.antt =====
-- The reads by offset of storage/segment.rs, in a file that the writer has written.
use bazalt.Prelude.{
  ℕ, ◌+◌, ◌-◌, ◌^◌, ◌<◌, ◌≡◌, refl, sym, ap, ◌∙◌, Bool, not, Option, none, some, List, [], ◌∷◌,
  ◌++◌, append_assoc, length, length-append, drop, ltb, saturating_add, if_cases, subst, arith,
}
use bazalt.Segments.Codec.{Bytes, ContentRecord}
use bazalt.Segments.Roundtrip.{drop-append, IsRecord}
use bazalt.Segments.Files.{
  header_size, ActiveWriter, PreparedRecord, prepare_record, needs_rotation, check_rotation_budget,
  rotate_after_commit, write_prepared, append_record, read_one, read_record, read_record_at,
  read_many_at,
}
use bazalt.Segments.Frames.{frame, IsWritten, read_record-frame}
use bazalt.Segments.Crash.{
  bind_cases, Prepares, Prepared, prepare_record-Prepared, Wrote, write_prepared-Wrote,
}

module _ (lossy : Bytes → Bytes) (crc : Bytes → ℕ) (crc_fits : (v : Bytes) → crc v < 2 ^ 32) where
  abbrev Placed : ActiveWriter → Option (ℕ × ActiveWriter) → Type 0
  Placed w none = Unit {0}
  Placed w (some t) = t.0 ≡ length w.file

  write_prepared-Placed :
      (r : ContentRecord) (p : PreparedRecord) (w : ActiveWriter)
      → Placed w (write_prepared crc r p w)
  unfolding write_prepared
  write_prepared-Placed r p w =
      if_cases (Placed w) (ltb w.store_max_bytes (saturating_add w.retained_bytes p.encoded_len))
        (λ full. tt) (λ room. refl)

  -- The record stands in the file at the offset.
  record Locates (max : ℕ) (r : ContentRecord) (t : ℕ × ActiveWriter) : Type 0 where
    before : Bytes
    payload : Bytes
    written : IsWritten lossy crc max crc_fits r payload
    file : t.1.file ≡ before ++ frame lossy crc max crc_fits payload
    place : t.0 ≡ length before

  abbrev Located : ℕ → ContentRecord → Option (ℕ × ActiveWriter) → Type 0
  Located max r none = Unit {0}
  Located max r (some t) = Locates max r t

  Wrote-Located :
      (r : ContentRecord) (w : ActiveWriter) (o : Option (ℕ × ActiveWriter))
      → Wrote lossy crc crc_fits r w o
      → Placed w o
      → Located w.max_record_bytes r o
  Wrote-Located r w none a e = tt
  Wrote-Located r w (some t) a e = record {
    before = w.file;
    payload = a.payload;
    written = a.written;
    file = a.file;
    place = e;
  }

  write_prepared-Located :
      (r : ContentRecord) (p : PreparedRecord) (w : ActiveWriter)
      → IsRecord lossy r
      → Prepares r w p
      → Located w.max_record_bytes r (write_prepared crc r p w)
  write_prepared-Located r p w valid ready =
      Wrote-Located r w (write_prepared crc r p w)
        (write_prepared-Wrote lossy crc crc_fits r p w valid ready) (write_prepared-Placed r p w)

  -- The rotation leaves the limit on a record.
  abbrev Limited : ℕ → Option ActiveWriter → Type 0
  Limited max none = Unit {0}
  Limited max (some fresh) = fresh.max_record_bytes ≡ max

  rotate_after_commit-Limited :
      (created : ℕ) (w : ActiveWriter) → Limited w.max_record_bytes (rotate_after_commit created w)
  unfolding rotate_after_commit
  rotate_after_commit-Limited created w =
      if_cases (Limited w.max_record_bytes)
        (ltb w.store_max_bytes (saturating_add w.retained_bytes header_size)) (λ full. tt)
        (λ fits. refl)

  append_record-Located :
      (committed : Bool) (created : ℕ) (r : ContentRecord) (w : ActiveWriter)
      → IsRecord lossy r
      → Located w.max_record_bytes r (append_record crc committed created r w)
  unfolding append_record
  append_record-Located committed created r w valid =
      let at = Located w.max_record_bytes r in
      bind_cases at (prepare_record r w) _ tt (λ p found.
        let ready = subst (Prepared r w) found (prepare_record-Prepared r w) in
        if_cases at (not (needs_rotation p.encoded_len w))
          (λ stays. write_prepared-Located r p w valid ready)
          (λ turns.
            if_cases at (not (check_rotation_budget p.encoded_len w)) (λ full. tt)
              (λ room.
                if_cases at (not committed) (λ failed. tt)
                  (λ done. bind_cases at (rotate_after_commit created w) _ tt (λ fresh turned.
                    let same =
                      subst (Limited w.max_record_bytes) turned
                        (rotate_after_commit-Limited created w) in
                    subst (λ (max : ℕ). Located max r (write_prepared crc r p fresh)) same
                      (write_prepared-Located r p fresh valid (record {
                        encodes = ready.encodes;
                        size = ready.size;
                        short = omega (arith, ready.short, same);
                        fits = ready.fits;
                        whole = ready.whole;
                      })))))))

  read_record_at-read_record :
      (max : ℕ) (r : ContentRecord) (file d : Bytes) (offset n : ℕ)
      → drop offset file ≡ d
      → length file - offset ≡ length d
      → read_record lossy crc max (some (length d)) d ≡ read_one r n
      → read_record_at lossy crc max file offset ≡ some r
  unfolding read_record_at
  read_record_at-read_record max r file d offset n behind left e =
      rw (read_record_at, behind, left, e) refl

  read_record_at-Locates :
      (max : ℕ) (r : ContentRecord) (t : ℕ × ActiveWriter) (later : Bytes)
      → Locates max r t
      → read_record_at lossy crc max (t.1.file ++ later) t.0 ≡ some r
  read_record_at-Locates max r t later at =
      let f = frame lossy crc max crc_fits at.payload in
      let shape : t.1.file ++ later ≡ at.before ++ (f ++ later) =
        ap (λ (x : Bytes). x ++ later) at.file ∙ append_assoc at.before f later in
      read_record_at-read_record max r (t.1.file ++ later) (f ++ later) t.0 (12 + length at.payload)
        (ap (drop t.0) shape ∙ drop-append at.before (f ++ later) t.0 (sym at.place))
        (omega (arith, ap length shape, at.place, length-append at.before (f ++ later)))
        (read_record-frame lossy crc max crc_fits r at.payload later at.written)

  read_many_at-append :
      (max : ℕ) (file : Bytes) (before more : List ℕ)
      → read_many_at lossy crc max file (before ++ more)
        ≡ read_many_at lossy crc max file before ++ read_many_at lossy crc max file more
  unfolding read_many_at
  read_many_at-append max file [] more = refl
  read_many_at-append max file (offset ∷ before) more =
      ap
        (λ (x : List (ℕ × Option ContentRecord)).
          (offset, read_record_at lossy crc max file offset) ∷ x)
        (read_many_at-append max file before more)

  -- A record that was appended, with or without a rotation, is what a read at the offset that the writer
  -- gave finds, whatever is appended to the file later; and so in a read of many offsets, in its place
  -- among the others, whatever they give. For a record that the codec can give back, and a checksum of
  -- four bytes.
  pub read_record_at-append_record :
      (committed : Bool) (created : ℕ) (r : ContentRecord) (offset : ℕ) (w next : ActiveWriter)
      (later : Bytes) (before more : List ℕ)
      → IsRecord lossy r
      → append_record crc committed created r w ≡ some (offset, next)
      → (read_record_at lossy crc w.max_record_bytes (next.file ++ later) offset ≡ some r)
        × (read_many_at lossy crc w.max_record_bytes (next.file ++ later) (before ++ offset ∷ more)
            ≡ read_many_at lossy crc w.max_record_bytes (next.file ++ later) before
              ++ (offset, some r)
                ∷ read_many_at lossy crc w.max_record_bytes (next.file ++ later) more)
  unfolding read_many_at
  read_record_at-append_record committed created r offset w next later before more valid e =
      let max = w.max_record_bytes in
      let file = next.file ++ later in
      let found : read_record_at lossy crc max file offset ≡ some r =
        read_record_at-Locates max r (offset, next) later
          (subst (Located max r) e (append_record-Located committed created r w valid)) in
      (
        found,
        read_many_at-append max file before (offset ∷ more)
            ∙ ap
                (λ (x : Option ContentRecord).
                  read_many_at lossy crc max file before
                  ++ (offset, x) ∷ read_many_at lossy crc max file more)
                found,
      )
