-- ===== src/Fragments/Types.antt =====
-- The data types of capture/fragment.rs.
use bazalt.Prelude.{
  ℕ, ◌*◌, ◌≡◌, ◌↔◌, Bool, true, ◌&&◌, Option, none, List, [], ◌==◌, max, subst, arith,
}
use bazalt.Net.{IpAddr, same_addr, same_addr_refl, same_addr→eq}
use bazalt.BTreeMap.{BTreeMap}
use bazalt.HashMap.{HashMap, Key}

abbrev pub fragment_datagram_overhead : ℕ
fragment_datagram_overhead = 256

abbrev pub fragment_piece_overhead : ℕ
fragment_piece_overhead = 64

abbrev pub Bytes : Type 0
Bytes = List ℕ

pub record FragmentKey : Type 0 where
  pub version : ℕ
  pub l2_domain : ℕ
  pub src : IpAddr
  pub dst : IpAddr
  pub id : ℕ
  pub next_header : ℕ

-- The derived equality.
abbrev pub same_key : FragmentKey → FragmentKey → Bool
same_key a b =
    a.version == b.version
    && a.l2_domain == b.l2_domain
    && same_addr a.src b.src
    && same_addr a.dst b.dst
    && a.id == b.id
    && a.next_header == b.next_header

same_key_refl : (a : FragmentKey) → same_key a a ≡ true
same_key_refl a = ground (arith, same_addr_refl a.src, same_addr_refl a.dst)

same_key→eq : (a b : FragmentKey) → same_key a b ≡ true → a ≡ b
same_key→eq a b h = ground (arith, same_addr→eq a.src b.src, same_addr→eq a.dst b.dst)

pub same_key_iff : (a b : FragmentKey) → (same_key a b ≡ true) ↔ (a ≡ b)
same_key_iff a b = (same_key→eq a b, λ h. subst (λ c. same_key a c ≡ true) h (same_key_refl a))

instance abbrev pub fragment_key : Key FragmentKey
fragment_key = record { same = same_key; same_iff = same_key_iff }

-- `FragmentPiece`, with `data` as `bytes`.
pub record FragmentPiece : Type 0 where
  pub bytes : Bytes
  pub more : Bool

pub record FragmentState : Type 0 where
  pub pieces : BTreeMap FragmentPiece
  pub bytes : ℕ
  pub total_len : Option ℕ
  pub last_seen : ℕ
  pub wire_bytes : ℕ

-- `FragmentState::new`
abbrev pub new_state : ℕ → FragmentState
new_state now = record {
  pieces = [];
  bytes = fragment_datagram_overhead;
  total_len = none;
  last_seen = now;
  wire_bytes = 0;
}

pub data FragmentInsert : Type 0 where
  pending : FragmentInsert
  complete : (payload : Bytes) (wire_bytes : ℕ) → FragmentInsert
  dropped_overlap dropped_invalid : FragmentInsert

pub record FragmentMaintenance : Type 0 where
  pub expired : ℕ
  pub evicted : ℕ

pub record FragmentCache : Type 0 where
  pub states : HashMap FragmentKey FragmentState
  pub bytes : ℕ
  pub max_bytes : ℕ
  pub max_datagrams : ℕ
  pub timeout : ℕ
  pub last_cleanup : ℕ

-- `FragmentCache::new` at the time `now`.
abbrev pub new_cache : ℕ → ℕ → ℕ → ℕ → FragmentCache
new_cache max_bytes max_datagrams timeout now = record {
  states = [];
  bytes = 0;
  max_bytes = max max_bytes (64 * 1024);
  max_datagrams = max max_datagrams 1;
  timeout = timeout;
  last_cleanup = now;
}
