-- ===== src/Config/Accepted/Addresses.antt =====
-- The loops of `Config::validate` over the paths and over the pairs of listeners.
use rustymail.Base.{
  ℕ, ◌≤◌, ◌≡◌, refl, ◌↔◌, true, false, not, List, [], ◌∷◌, arith, length, All, ◌==◌,
}
use rustymail.Base.Try.{good}
use rustymail.Bytes.{Bytes}
use rustymail.Config.Net.{SocketAddr, same_ip, is_unspecified}
use rustymail.Config.Check.{require, validate_paths, validate_listeners, clear_of, overlaps}

pub paths_iff :
    (paths : List Bytes) → (validate_paths paths ≡ good tt) ↔ All (λ path. 1 ≤ length path) paths
unfolding validate_paths require
paths_iff [] = (λ _. tt, λ _. refl)
paths_iff ([] ∷ paths) = ground arith
paths_iff ((c ∷ path) ∷ paths) = ground (arith, paths_iff paths)

-- On the same port, two addresses differ and neither of them is the unspecified one.
abbrev pub NoOverlap : SocketAddr → SocketAddr → Type 0
NoOverlap a b =
    a.port ≡ b.port
    → (same_ip a.ip b.ip ≡ false) × (is_unspecified a.ip ≡ false) × (is_unspecified b.ip ≡ false)

overlaps_iff : (a b : SocketAddr) → (not (overlaps a b) ≡ true) ↔ NoOverlap a b
unfolding overlaps
overlaps_iff a b = ground arith

clear_iff :
    (a : SocketAddr) (others : List SocketAddr)
    → (clear_of a others ≡ good tt) ↔ All (NoOverlap a) others
unfolding clear_of require
clear_iff a [] = (λ _. tt, λ _. refl)
clear_iff a (other ∷ others) = ground (arith, overlaps_iff a other, clear_iff a others)

-- Each address has a port and is apart from all that follow it.
abbrev pub Apart : List SocketAddr → Type 0
Apart [] = Unit
Apart (a ∷ others) = (1 ≤ a.port) × All (NoOverlap a) others × Apart others

has_port : (port : ℕ) → (not (port == 0) ≡ true) ↔ (1 ≤ port)
has_port port = ground arith

pub listeners_iff :
    (all_of : List SocketAddr) → (validate_listeners all_of ≡ good tt) ↔ Apart all_of
unfolding validate_listeners require
listeners_iff [] = (λ _. tt, λ _. refl)
listeners_iff (a ∷ others) =
    ground (arith, has_port a.port, clear_iff a others, listeners_iff others)
