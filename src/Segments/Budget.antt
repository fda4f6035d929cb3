-- ===== src/Segments/Budget.antt =====
-- The disk budget and the rotation of the writer in storage/segment.rs.
use bazalt.Prelude.{
  ℕ, ◌+◌, ◌≤◌, ◌<◌, ◌≡◌, refl, Bool, not, Option, none, some, ◌++◌, length, length-append, max, ltb,
  saturating_add, u64_max, if_cases, subst, arith,
}
use bazalt.Segments.Codec.{Bytes, ContentRecord, le_bytes}
use bazalt.Segments.Files.{
  header_size, write_header, ActiveWriter, PreparedRecord, prepare_record, needs_rotation,
  check_rotation_budget, new_writer, rotate_after_commit, record_header, write_prepared,
  append_record,
}
use bazalt.Segments.Crash.{bind_cases, Prepares, Prepared, prepare_record-Prepared}

-- The counter is the length of the file, what is retained covers it and is within the budget and one
-- header, which opening the store adds unchecked; the file is within its limit or the room of one record.
pub record IsAccounted (w : ActiveWriter) : Type 0 where
  pub counted : w.bytes ≡ length w.file
  pub headed : header_size ≤ w.bytes
  pub covered : w.bytes ≤ w.retained_bytes
  pub within : w.retained_bytes ≤ w.store_max_bytes + header_size
  pub sized : w.bytes ≤ max w.max_bytes (header_size + (12 + w.max_record_bytes))
  pub budget_fits : w.store_max_bytes + header_size < u64_max

abbrev Accounted : Option (ℕ × ActiveWriter) → Type 0
Accounted none = Unit {0}
Accounted (some t) = IsAccounted t.1

length-framed :
    (crc : Bytes → ℕ) (n : ℕ) (v : Bytes) → length (record_header crc n v ++ v) ≡ 12 + length v
unfolding le_bytes
length-framed crc n v = omega arith

write_prepared-Accounted :
    (crc : Bytes → ℕ) (r : ContentRecord) (p : PreparedRecord) (w : ActiveWriter)
    → IsAccounted w
    → Prepares r w p
    → w.bytes + p.encoded_len ≤ max w.max_bytes (header_size + (12 + w.max_record_bytes))
    → Accounted (write_prepared crc r p w)
unfolding write_prepared
write_prepared-Accounted crc r p w a ready room =
    if_cases Accounted (ltb w.store_max_bytes (saturating_add w.retained_bytes p.encoded_len))
      (λ full. tt)
      (λ fits.
        let v = p.prefix ++ r.bytes in
        record {
          counted = omega (
            arith,
            a.counted,
            ready.whole,
            ready.size,
            length-append p.prefix r.bytes,
            length-framed crc p.payload_len v,
            length-append w.file (record_header crc p.payload_len v ++ v),
          );
          headed = omega (arith, a.headed);
          covered = ground (arith, a.covered, a.budget_fits, fits);
          within = ground (arith, fits);
          sized = room;
          budget_fits = a.budget_fits;
        })

-- A new file, and the limits as they were.
record Rotates (w fresh : ActiveWriter) : Type 0 where
  accounted : IsAccounted fresh
  restarted : fresh.bytes ≡ header_size
  record_limit : fresh.max_record_bytes ≡ w.max_record_bytes

abbrev Rotated : ActiveWriter → Option ActiveWriter → Type 0
Rotated w none = Unit {0}
Rotated w (some fresh) = Rotates w fresh

rotate_after_commit-Rotated :
    (created : ℕ) (w : ActiveWriter) → IsAccounted w → Rotated w (rotate_after_commit created w)
unfolding rotate_after_commit write_header le_bytes
rotate_after_commit-Rotated created w a =
    if_cases (Rotated w) (ltb w.store_max_bytes (saturating_add w.retained_bytes header_size))
      (λ full. tt)
      (λ fits. record {
        accounted = record {
          counted = refl;
          headed = omega arith;
          covered = ground (arith, a.budget_fits, fits);
          within = ground (arith, fits);
          sized = omega arith;
          budget_fits = a.budget_fits;
        };
        restarted = refl;
        record_limit = refl;
      })

rotated_write-Accounted :
    (crc : Bytes → ℕ) (r : ContentRecord) (p : PreparedRecord) (w fresh : ActiveWriter)
    → Prepares r w p
    → Rotates w fresh
    → Accounted (write_prepared crc r p fresh)
rotated_write-Accounted crc r p w fresh ready turn =
    write_prepared-Accounted crc r p fresh turn.accounted
      (record {
        encodes = ready.encodes;
        size = ready.size;
        short = omega (arith, ready.short, turn.record_limit);
        fits = ready.fits;
        whole = ready.whole;
      })
      (omega (arith, ready.short, ready.whole, turn.record_limit, turn.restarted))

append_record-Accounted :
    (crc : Bytes → ℕ) (committed : Bool) (created : ℕ) (r : ContentRecord) (w : ActiveWriter)
    → IsAccounted w
    → Accounted (append_record crc committed created r w)
unfolding append_record needs_rotation
append_record-Accounted crc committed created r w a =
    bind_cases Accounted (prepare_record r w) _ tt (λ p found.
      let ready = subst (Prepared r w) found (prepare_record-Prepared r w) in
      if_cases Accounted (not (needs_rotation p.encoded_len w))
        (λ stays.
          write_prepared-Accounted crc r p w a ready
            (ground (arith, stays, a.headed, ready.short, ready.whole)))
        (λ turns.
          if_cases Accounted (not (check_rotation_budget p.encoded_len w)) (λ full. tt)
            (λ room.
              if_cases Accounted (not committed) (λ failed. tt)
                (λ done. bind_cases Accounted (rotate_after_commit created w) _ tt (λ fresh turned.
                  rotated_write-Accounted crc r p w fresh ready
                    (subst (Rotated w) turned (rotate_after_commit-Rotated created w a)))))))

new_writer-IsAccounted :
    (max_bytes max_record_bytes store_max_bytes retained_bytes created : ℕ)
    → retained_bytes ≤ store_max_bytes
    → store_max_bytes + header_size < u64_max
    → IsAccounted (new_writer max_bytes max_record_bytes store_max_bytes retained_bytes created)
unfolding new_writer write_header le_bytes
new_writer-IsAccounted max_bytes max_record_bytes store_max_bytes retained_bytes created opened
      fits =
    record {
      counted = refl;
      headed = omega arith;
      covered = omega (arith, opened, fits);
      within = omega (arith, opened, fits);
      sized = omega arith;
      budget_fits = fits;
    }

-- The writers that appending records to a first one can lead to, with any rotations.
pub data Reached (crc : Bytes → ℕ) (first : ActiveWriter) : ActiveWriter → Type 0 where
  opened : Reached crc first first
  appended :
      {w next : ActiveWriter}
      → Reached crc first w
      → (committed : Bool) (created : ℕ) (r : ContentRecord) (offset : ℕ)
      → append_record crc committed created r w ≡ some (offset, next)
      → Reached crc first next

Reached-IsAccounted :
    (crc : Bytes → ℕ) (first w : ActiveWriter)
    → IsAccounted first
    → Reached crc first w
    → IsAccounted w
Reached-IsAccounted crc first _ a opened = a
Reached-IsAccounted crc first _ a (appended {w} before committed created r offset e) =
    subst Accounted e
      (append_record-Accounted crc committed created r w (Reached-IsAccounted crc first w a before))

-- Whatever records are appended to a writer that was opened within the disk budget, with whatever
-- rotations: its counter is the length of its file, what is retained covers the file and exceeds the budget
-- by one file header at most, and the file is within its limit or the room of one record of the most bytes.
pub append_record-IsAccounted :
    (crc : Bytes → ℕ) (max_bytes max_record_bytes store_max_bytes retained_bytes created : ℕ)
    (w : ActiveWriter)
    → retained_bytes ≤ store_max_bytes
    → store_max_bytes + header_size < u64_max
    → Reached crc (new_writer max_bytes max_record_bytes store_max_bytes retained_bytes created) w
    → IsAccounted w
append_record-IsAccounted crc max_bytes max_record_bytes store_max_bytes retained_bytes created w o
      f reached =
    Reached-IsAccounted crc _ w
      (new_writer-IsAccounted max_bytes max_record_bytes store_max_bytes retained_bytes created o f)
      reached
