-- ===== src/Net.antt =====
-- `std::net::IpAddr`, an address as the number that its octets write in network order, with its
-- derived equality.
use bazalt.Prelude.{ℕ, ◌≡◌, ap, Bool, true, false, ◌==◌, arith}

pub data IpAddr : Type 0 where
  v4 : ℕ → IpAddr
  v6 : ℕ → IpAddr

abbrev pub same_addr : IpAddr → IpAddr → Bool
same_addr (v4 a) (v4 b) = a == b
same_addr (v4 a) (v6 b) = false
same_addr (v6 a) (v4 b) = false
same_addr (v6 a) (v6 b) = a == b

pub same_addr_refl : (a : IpAddr) → same_addr a a ≡ true
same_addr_refl (v4 a) = ground arith
same_addr_refl (v6 a) = ground arith

pub same_addr→eq : (a b : IpAddr) → same_addr a b ≡ true → a ≡ b
same_addr→eq (v4 a) (v4 b) h = ap v4 (ground arith)
same_addr→eq (v4 a) (v6 b) h = absurd (cc)
same_addr→eq (v6 a) (v4 b) h = absurd (cc)
same_addr→eq (v6 a) (v6 b) h = ap v6 (ground arith)
