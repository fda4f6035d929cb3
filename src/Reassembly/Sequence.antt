-- ===== src/Reassembly/Sequence.antt =====
-- `extend_seq` and `rst_matches_next` in flow/reassembly.rs: 32-bit sequence numbers in the 64-bit
-- sequence space.
use bazalt.Prelude.{ℕ, ◌+◌, ◌%◌, ◌^◌, ◌≤◌, ◌<◌, ◌≡◌, ◌↔◌, true, some, u64_max, arith}
use bazalt.Reassembly.Types.{TcpHalf, extend_seq}
use bazalt.Reassembly.Half.{rst_matches_next}

-- A position within 2^31 of the reference comes back from its low 32 bits, across any number of
-- wraparounds.
pub extend_seq_low_bits :
    (position reference : ℕ)
    → position ≤ u64_max
    → reference < position + 2 ^ 31 + 1
    → position < reference + 2 ^ 31
    → extend_seq (position % 2 ^ 32) reference ≡ position
unfolding extend_seq
extend_seq_low_bits position reference fits low high = ground arith

-- The extension has the sequence number as its low bits and lies within 2^31 of the reference,
-- where neither end of the 64-bit space is in reach.
pub extend_seq_near :
    (seq reference : ℕ)
    → seq < 2 ^ 32
    → 2 ^ 31 ≤ reference
    → reference + 2 ^ 31 ≤ u64_max
    → (extend_seq seq reference % 2 ^ 32 ≡ seq)
      × (reference ≤ extend_seq seq reference + 2 ^ 31)
      × (extend_seq seq reference < reference + 2 ^ 31)
unfolding extend_seq
extend_seq_near seq reference fits low high = ground arith

-- An RST is let through by an initialised half exactly if its sequence number is the low 32 bits of
-- the expected position.
pub rst_matches_next_iff :
    (h : TcpHalf) (seq expected : ℕ)
    → h.next_abs ≡ some expected
    → seq < 2 ^ 32
    → 2 ^ 31 ≤ expected
    → expected + 2 ^ 31 ≤ u64_max
    → (rst_matches_next h seq ≡ true) ↔ (seq ≡ expected % 2 ^ 32)
unfolding rst_matches_next extend_seq
rst_matches_next_iff h seq expected e fits low high = (λ m. ground arith, λ m. ground arith)
