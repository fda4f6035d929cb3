-- ===== src/Segments/Tests.antt =====
-- The record codec of storage/segment.rs on a concrete record.
use bazalt.Prelude.{
  ℕ, ◌%◌, ◌<◌, true, Option, take, ◌≡◌, refl, none, some, [], ◌∷◌, ◌++◌, length, arith, ◌^◌, ◌≤◌,
  ◌↔◌, ◌⊎◌,
}
use bazalt.FlowKeys.Types.{a_to_b}
use bazalt.Segments.Codec.{
  Bytes, ContentRecord, http_request_body, le_bytes, service_bytes, encode_record_prefix,
  encode_record, decode_record,
}
use bazalt.Segments.Files.{
  ActiveWriter, new_writer, write_header, prepare_record, needs_rotation, check_rotation_budget,
  rotate_after_commit, append_record, read_record_at, read_many_at, write_prepared, write_record,
  scan_path, kept, recover_last_segment_tail,
}
use bazalt.Segments.Frames.{collect}
use bazalt.Segments.Crash.{write_records, crash_lem}
use bazalt.Segments.Reads.{read_record_at-append_record}
use bazalt.Segments.Budget.{IsAccounted, opened, appended, append_record-IsAccounted}
use bazalt.Segments.Roundtrip.{IsRecord, decode_record-encode_record, encode_record_fails_iff}

abbrev sixteen : ℕ → Bytes
sixteen b = b ∷ b ∷ b ∷ b ∷ b ∷ b ∷ b ∷ b ∷ b ∷ b ∷ b ∷ b ∷ b ∷ b ∷ b ∷ b ∷ []

abbrev sample : ContentRecord
sample = record {
  id = sixteen 1;
  flow_id = sixteen 2;
  ts_ns = 1_000_000_007;
  service = some (104 ∷ 105 ∷ []);
  direction = a_to_b;
  view = http_request_body;
  stream_offset = 300;
  bytes = 9 ∷ 8 ∷ [];
}

abbrev unchanged : Bytes → Bytes
unchanged b = b

sample-IsRecord : IsRecord unchanged sample
sample-IsRecord = record {
  id_len = refl;
  flow_id_len = refl;
  ts_fits = omega arith;
  offset_fits = omega arith;
  named = refl;
}

sample_bytes : Bytes
unfolding le_bytes
sample_bytes =
    sixteen 1
    ++ sixteen 2
    ++ le_bytes 8 1_000_000_007
    ++ (2 ∷ 0 ∷ 104 ∷ 105 ∷ 0 ∷ 2 ∷ [])
    ++ le_bytes 8 300
    ++ (2 ∷ 0 ∷ 0 ∷ 0 ∷ 9 ∷ 8 ∷ [])

decode_record-encode_record_example : decode_record unchanged (sample_bytes ++ []) ≡ some sample
unfolding sample_bytes encode_record encode_record_prefix
decode_record-encode_record_example =
    decode_record-encode_record unchanged sample sample_bytes [] sample-IsRecord refl

encode_record_fails_iff_example :
    (encode_record sample ≡ none)
    ↔ ((2 ^ 16 ≤ length (service_bytes sample.service)) ⊎ (2 ^ 32 ≤ length sample.bytes))
encode_record_fails_iff_example = encode_record_fails_iff sample

-- A checksum for the test.
abbrev checksum : Bytes → ℕ
checksum v = length v % 2 ^ 32

checksum_fits : (v : Bytes) → checksum v < 2 ^ 32
checksum_fits v = omega arith

begun : ActiveWriter
unfolding new_writer write_header le_bytes
begun = new_writer 1_000 500 10_000 0 7

abbrev or_begun : Option ActiveWriter → ActiveWriter
or_begun none = begun
or_begun (some w) = w

abbrev or_begun_pair : Option (ℕ × ActiveWriter) → ActiveWriter
or_begun_pair none = begun
or_begun_pair (some t) = t.1

one_record : ActiveWriter
unfolding begun write_records write_record prepare_record write_prepared encode_record_prefix
    le_bytes
one_record = or_begun (write_records checksum (sample ∷ []) begun)

two_records : ActiveWriter
unfolding begun write_records write_record prepare_record write_prepared encode_record_prefix
    le_bytes
two_records = or_begun (write_records checksum (sample ∷ sample ∷ []) begun)

one_written :
    write_records checksum (sample ∷ []) (new_writer 1_000 500 10_000 0 7) ≡ some one_record
unfolding one_record
one_written = refl

two_written : write_record checksum sample one_record ≡ some (length one_record.file, two_records)
unfolding one_record two_records
two_written = refl

crash_lem_example :
    (recover_last_segment_tail unchanged checksum 500 (take 110 two_records.file)
      ≡ kept one_record.file)
    × (scan_path unchanged checksum 500 collect one_record.file []
        ≡ (sample ∷ [], some (length one_record.file)))
unfolding one_record two_records
crash_lem_example =
    crash_lem unchanged checksum checksum_fits 1_000 500 10_000 0 7 (sample ∷ []) sample
      (length one_record.file) 110 one_record two_records (sample-IsRecord, tt) sample-IsRecord
      one_written two_written (omega arith) (omega arith)

small : ActiveWriter
unfolding new_writer write_header le_bytes
small = new_writer 100 500 10_000 9_000 7

append_sample : ActiveWriter → Option (ℕ × ActiveWriter)
append_sample = append_record checksum true 8 sample

once : ActiveWriter
unfolding small append_sample append_record prepare_record needs_rotation write_prepared
    encode_record_prefix le_bytes
once = or_begun_pair (append_sample small)

twice : ActiveWriter
unfolding once append_sample append_record prepare_record needs_rotation check_rotation_budget
    rotate_after_commit write_header write_prepared encode_record_prefix le_bytes
twice = or_begun_pair (append_sample once)

-- The second record is the first of a new file.
rotated : twice.bytes ≡ once.bytes
unfolding twice
rotated = refl

append_record-IsAccounted_example : IsAccounted twice
unfolding small once twice append_sample
append_record-IsAccounted_example =
    append_record-IsAccounted checksum 100 500 10_000 9_000 7 twice (omega arith) (omega arith)
      (appended (appended opened true 8 sample 20 refl) true 8 sample 20 refl)

read_record_at-append_record_example :
    (read_record_at unchanged checksum 500 (twice.file ++ 7 ∷ []) 20 ≡ some sample)
    × (read_many_at unchanged checksum 500 (twice.file ++ 7 ∷ []) (3 ∷ 20 ∷ 20 ∷ [])
        ≡ read_many_at unchanged checksum 500 (twice.file ++ 7 ∷ []) (3 ∷ [])
          ++ (20, some sample)
            ∷ read_many_at unchanged checksum 500 (twice.file ++ 7 ∷ []) (20 ∷ []))
unfolding small once twice append_sample
read_record_at-append_record_example =
    read_record_at-append_record unchanged checksum checksum_fits true 8 sample 20 once twice
      (7 ∷ []) (3 ∷ []) (20 ∷ []) sample-IsRecord refl
