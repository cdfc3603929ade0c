-- ===== src/Config/Net.antt =====
-- `std::net::IpAddr` and `SocketAddr` as far as crates/core/src/config.rs uses them: an address is its
-- octets.
use rustymail.Base.{ℕ, Bool, false, ◌&&◌, ◌==◌, [], ◌∷◌}
use rustymail.Bytes.{Bytes, equal}

pub data IpAddr : Type 0 where
  v4 : ℕ → ℕ → ℕ → ℕ → IpAddr
  v6 : Bytes → IpAddr

pub record SocketAddr : Type 0 where
  pub ip : IpAddr
  pub port : ℕ

unfoldable pub same_ip : IpAddr → IpAddr → Bool
same_ip (v4 a b c d) (v4 e f g h) = a == e && b == f && c == g && d == h
same_ip (v6 a) (v6 b) = equal a b
same_ip _ _ = false

abbrev fifteen_zeros : Bytes
fifteen_zeros = 0 ∷ 0 ∷ 0 ∷ 0 ∷ 0 ∷ 0 ∷ 0 ∷ 0 ∷ 0 ∷ 0 ∷ 0 ∷ 0 ∷ 0 ∷ 0 ∷ 0 ∷ []

abbrev unspecified_v6 : Bytes
unspecified_v6 = 0 ∷ fifteen_zeros

-- `::1`
abbrev ends_in_one : Bytes → Bool
ends_in_one octets =
    equal octets (0 ∷ 0 ∷ 0 ∷ 0 ∷ 0 ∷ 0 ∷ 0 ∷ 0 ∷ 0 ∷ 0 ∷ 0 ∷ 0 ∷ 0 ∷ 0 ∷ 0 ∷ 1 ∷ [])

unfoldable pub is_unspecified : IpAddr → Bool
is_unspecified (v4 a b c d) = a == 0 && b == 0 && c == 0 && d == 0
is_unspecified (v6 octets) = equal octets unspecified_v6

unfoldable pub is_loopback : IpAddr → Bool
is_loopback (v4 a b c d) = a == 127
is_loopback (v6 octets) = ends_in_one octets
