-- ===== src/Segments/Files.antt =====
-- The writer, the reader and the recovery of one segment file in storage/segment.rs, a file being its
-- bytes. CRC-32 is an argument.
use bazalt.Prelude.{
  ℕ, zero, suc, ◌+◌, ◌-◌, ◌^◌, Bool, true, false, not, ◌&&◌, Option, none, some, List, [], ◌∷◌,
  ◌++◌, length, is_empty, take, drop, ltb, ◌==◌, if◌then◌else◌, saturating_add,
}
use bazalt.Segments.Codec.{
  Bytes, ContentRecord, ◌>>=◌, le_bytes, from_le_bytes, encode_record_prefix, decode_record,
}

-- `PMSEG001` and the number of a record's first four bytes.
abbrev pub magic : Bytes
magic = 80 ∷ 77 ∷ 83 ∷ 69 ∷ 71 ∷ 48 ∷ 48 ∷ 49 ∷ []

abbrev pub record_magic : ℕ
record_magic = 0x504d_5243

abbrev pub header_size : ℕ
header_size = 20

-- `write_header`, at a time.
unfoldable pub write_header : ℕ → Bytes
write_header created = magic ++ (le_bytes 4 1 ++ le_bytes 8 created)

abbrev pub same_bytes : Bytes → Bytes → Bool
same_bytes [] [] = true
same_bytes [] (b ∷ bs) = false
same_bytes (a ∷ rest) [] = false
same_bytes (a ∷ rest) (b ∷ bs) = a == b && same_bytes rest bs

-- `read_header`, which leaves the bytes behind it.
unfoldable pub read_header : Bytes → Option Bytes
read_header d =
    if ltb (length d) header_size
    then none
    else if not (same_bytes (take 8 d) magic)
    then none
    else if not (from_le_bytes (take 4 (drop 8 d)) == 1)
    then none
    else some (drop header_size d)

-- `ActiveWriter`, with the bytes of its file.
pub record ActiveWriter : Type 0 where
  pub max_bytes : ℕ
  pub max_record_bytes : ℕ
  pub file : Bytes
  pub bytes : ℕ
  pub retained_bytes : ℕ
  pub store_max_bytes : ℕ

-- `ActiveWriter::new`, at a time.
unfoldable pub new_writer : ℕ → ℕ → ℕ → ℕ → ℕ → ActiveWriter
new_writer max_bytes max_record_bytes store_max_bytes retained_bytes created = record {
  max_bytes = max_bytes;
  max_record_bytes = max_record_bytes;
  file = write_header created;
  bytes = header_size;
  retained_bytes = saturating_add retained_bytes header_size;
  store_max_bytes = store_max_bytes;
}

-- `rotate_after_commit`, at a time.
unfoldable pub rotate_after_commit : ℕ → ActiveWriter → Option ActiveWriter
rotate_after_commit created w =
    if ltb w.store_max_bytes (saturating_add w.retained_bytes header_size)
    then none
    else some (record w {
      file = write_header created;
      bytes = header_size;
      retained_bytes = saturating_add w.retained_bytes header_size;
    })

pub record PreparedRecord : Type 0 where
  pub prefix : Bytes
  pub payload_len : ℕ
  pub encoded_len : ℕ

unfoldable pub prepare_record : ContentRecord → ActiveWriter → Option PreparedRecord
prepare_record r w = encode_record_prefix r >>= λ prefix.
    let payload_len = saturating_add (length prefix) (length r.bytes) in
    let encoded_len = 12 + payload_len in
    if ltb (2 ^ 32 - 1) payload_len
    then none
    else if ltb w.max_record_bytes payload_len
    then none
    else if ltb w.store_max_bytes (saturating_add w.retained_bytes encoded_len)
    then none
    else some (record { prefix = prefix; payload_len = payload_len; encoded_len = encoded_len })

unfoldable pub needs_rotation : ℕ → ActiveWriter → Bool
needs_rotation encoded_len w = ltb header_size w.bytes && ltb w.max_bytes (w.bytes + encoded_len)

-- `check_rotation_budget`; true is `Ok`.
unfoldable pub check_rotation_budget : ℕ → ActiveWriter → Bool
check_rotation_budget encoded_len w = not (
    ltb w.store_max_bytes
      (saturating_add w.retained_bytes (saturating_add header_size encoded_len)))

-- The twelve bytes in front of a payload of some length.
abbrev pub record_header : (Bytes → ℕ) → ℕ → Bytes → Bytes
record_header crc len payload =
    le_bytes 4 record_magic ++ (le_bytes 4 len ++ le_bytes 4 (crc payload))

-- `write_prepared`: the offset and the writer.
unfoldable pub write_prepared :
    (Bytes → ℕ) → ContentRecord → PreparedRecord → ActiveWriter → Option (ℕ × ActiveWriter)
write_prepared crc r p w =
    let payload = p.prefix ++ r.bytes in
    if ltb w.store_max_bytes (saturating_add w.retained_bytes p.encoded_len)
    then none
    else some (
      length w.file,
      record w {
        file = w.file ++ (record_header crc p.payload_len payload ++ payload);
        bytes = w.bytes + p.encoded_len;
        retained_bytes = saturating_add w.retained_bytes p.encoded_len;
      },
    )

-- `prepare_record` and `write_prepared`, where no rotation is due.
unfoldable pub write_record : (Bytes → ℕ) → ContentRecord → ActiveWriter → Option (ℕ × ActiveWriter)
write_record crc r w = prepare_record r w >>= λ p. write_prepared crc r p w

-- What the store's thread does with a record. Whether `commit_and_rotate` has committed the index, and the
-- time of the new file, are arguments.
unfoldable pub append_record :
    (Bytes → ℕ) → Bool → ℕ → ContentRecord → ActiveWriter → Option (ℕ × ActiveWriter)
append_record crc committed created r w = prepare_record r w >>= λ p.
    if not (needs_rotation p.encoded_len w)
    then write_prepared crc r p w
    else if not (check_rotation_budget p.encoded_len w)
    then none
    else if not committed
    then none
    else rotate_after_commit created w >>= λ fresh. write_prepared crc r p fresh

-- `Result<Option<(ContentRecord, u64)>>` of `read_record`.
pub data RecordRead : Type 0 where
  no_more bad : RecordRead
  read_one : (r : ContentRecord) (consumed : ℕ) → RecordRead

-- The three numbers in front of a payload.
abbrev pub magic_of : Bytes → ℕ
magic_of d = from_le_bytes (take 4 d)

abbrev pub len_of : Bytes → ℕ
len_of d = from_le_bytes (take 4 (drop 4 d))

abbrev pub crc_of : Bytes → ℕ
crc_of d = from_le_bytes (take 4 (drop 8 d))

abbrev pub payload_of : Bytes → Bytes
payload_of d = take (len_of d) (drop 12 d)

-- `encoded_len > available_bytes`
abbrev pub passes : ℕ → Option ℕ → Bool
passes encoded_len none = false
passes encoded_len (some available) = ltb available encoded_len

unfoldable pub read_record : (Bytes → Bytes) → (Bytes → ℕ) → ℕ → Option ℕ → Bytes → RecordRead
read_record lossy crc max_record_bytes available_bytes d =
    if is_empty d
    then no_more
    else if ltb (length d) 12
    then bad
    else if not (magic_of d == record_magic)
    then bad
    else if ltb max_record_bytes (len_of d)
    then bad
    else if passes (saturating_add 12 (len_of d)) available_bytes
    then bad
    else if ltb (length d) (12 + len_of d)
    then bad
    else if not (crc (payload_of d) == crc_of d)
    then bad
    else elim (decode_record lossy (payload_of d)) [
      | none ↦ bad
      | some r ↦ read_one r (12 + len_of d)
    ]

-- `read_record_at`; the file has been found in the store.
unfoldable pub read_record_at : (Bytes → Bytes) → (Bytes → ℕ) → ℕ → Bytes → ℕ → Option ContentRecord
read_record_at lossy crc max_record_bytes file offset =
    elim (read_record lossy crc max_record_bytes (some (length file - offset)) (drop offset file)) [
      | no_more ↦ none
      | bad ↦ none
      | read_one r consumed ↦ some r
    ]

-- `read_many_at`, behind its test that the file is in the store.
unfoldable pub read_many_at :
    (Bytes → Bytes) → (Bytes → ℕ) → ℕ → Bytes → List ℕ → List (ℕ × Option ContentRecord)
read_many_at lossy crc max_record_bytes file [] = []
read_many_at lossy crc max_record_bytes file (offset ∷ offsets) =
    (offset, read_record_at lossy crc max_record_bytes file offset)
    ∷ read_many_at lossy crc max_record_bytes file offsets

-- What `scan_path` calls with each record: it changes its state, and true is `Ok`.
abbrev pub Callback : Type 0 → Type 0
Callback S = ContentRecord → S → S × Bool

-- The loop of `scan_path`: the callback's state, and the number of bytes or an error.
unfoldable pub scan_from :
    {S : Type 0} → (Bytes → Bytes) → (Bytes → ℕ) → ℕ → Callback S → ℕ → Bytes → ℕ → S → S × Option ℕ
scan_from lossy crc max_record_bytes f zero d bytes s = (s, none)
scan_from lossy crc max_record_bytes f (suc fuel) d bytes s =
    elim (read_record lossy crc max_record_bytes (some (length d)) d) [
      | no_more ↦ (s, some bytes)
      | bad ↦ (s, none)
      | read_one r consumed ↦
          let called = f r s in
          let rest =
            scan_from lossy crc max_record_bytes f fuel (drop consumed d) (bytes + consumed)
              called.0 in
          if called.1 then rest else (called.0, none)
    ]

-- Each record takes twelve bytes at least.
unfoldable pub scan_path :
    {S : Type 0} → (Bytes → Bytes) → (Bytes → ℕ) → ℕ → Callback S → Bytes → S → S × Option ℕ
scan_path lossy crc max_record_bytes f file s = elim (read_header file) [
  | none ↦ (s, none)
  | some d ↦ scan_from lossy crc max_record_bytes f (length d + 1) d header_size s
]

-- The loop of `recover_last_segment_tail` from an offset on: the length to keep, or corruption.
unfoldable pub recover_from : (Bytes → Bytes) → (Bytes → ℕ) → ℕ → ℕ → Bytes → ℕ → Option ℕ
recover_from lossy crc max_record_bytes zero d offset = none
recover_from lossy crc max_record_bytes (suc fuel) d offset =
    let rest =
      recover_from lossy crc max_record_bytes fuel (drop (12 + len_of d) d)
        (offset + (12 + len_of d)) in
    if is_empty d
    then some offset
    else if ltb (length d) 12
    then some offset
    else if not (magic_of d == record_magic)
    then none
    else if ltb max_record_bytes (len_of d)
    then none
    else if ltb (length d) (12 + len_of d)
    then some offset
    else if not (crc (payload_of d) == crc_of d)
    then none
    else elim (decode_record lossy (payload_of d)) [ none ↦ none | some r ↦ rest ]

-- What becomes of the newest file.
pub data Recovery : Type 0 where
  removed corrupt : Recovery
  kept : Bytes → Recovery

unfoldable pub recover_last_segment_tail : (Bytes → Bytes) → (Bytes → ℕ) → ℕ → Bytes → Recovery
recover_last_segment_tail lossy crc max_record_bytes file =
    if ltb (length file) header_size then removed else elim (read_header file) [
      | none ↦ corrupt
      | some d ↦ elim (recover_from lossy crc max_record_bytes (length d + 1) d header_size) [
        | none ↦ corrupt
        | some n ↦ kept (take n file)
      ]
    ]
