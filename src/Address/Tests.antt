-- ===== src/Address/Tests.antt =====
-- Runs of the address parser, and the theorems of its modules at a concrete input.
use rustymail.Base.{◌≤◌, ◌≡◌, ◌↔◌, refl, true, false, none, some, ◌++◌, ◌∷◌, length, all}
use rustymail.Bytes.{Bytes, codes, lowercase, contains, is_alphanumeric, to_lower}
use rustymail.Address.{Address, parse, domain, local_key, valid_domain}
use rustymail.Address.Canonical.{parse_canonical, domain-parse, parse-local_key}
use rustymail.Address.Safe.{is_path_byte, parse-is_path_byte}

abbrev alice : Address
alice = record { text = codes "Alice+test@example.com" }

parse-alice : parse (codes "Alice+test@EXAMPLE.com") ≡ some alice
unfolding parse valid_domain is_alphanumeric to_lower
parse-alice = refl

parse_refusals :
    (parse (codes "a@@b") ≡ none)
    × (parse (codes "a..b@c") ≡ none)
    × (parse (codes ".a@c") ≡ none)
    × (parse (codes "a.@c") ≡ none)
    × (parse (codes "a@-host") ≡ none)
    × (parse (codes "a@host.") ≡ none)
    × (parse (codes "a@host\r\nRCPT TO:<evil@host>") ≡ none)
unfolding parse valid_domain is_alphanumeric
parse_refusals = (refl, refl, refl, refl, refl, refl, refl)

parse_canonical_example :
    (local : Bytes) × (host : Bytes) × (codes "Alice+test@EXAMPLE.com" ≡ local ++ (b'@' ∷ host))
    × (contains b'@' host ≡ false)
    × (alice.text ≡ local ++ (b'@' ∷ lowercase host))
    × (parse alice.text ≡ some alice)
parse_canonical_example = parse_canonical (codes "Alice+test@EXAMPLE.com") alice parse-alice

domain-parse_example :
    (valid_domain (domain alice) ≡ true) × (lowercase (domain alice) ≡ domain alice)
domain-parse_example = domain-parse (codes "Alice+test@EXAMPLE.com") alice parse-alice

abbrev shouting : Address
shouting = record { text = codes "ALICE+TEST@example.com" }

parse-shouting : parse (codes "ALICE+TEST@Example.COM") ≡ some shouting
unfolding parse valid_domain is_alphanumeric to_lower
parse-shouting = refl

parse-local_key_example :
    ((local_key alice ≡ local_key shouting)
      ↔ (lowercase (codes "Alice+test@EXAMPLE.com") ≡ lowercase (codes "ALICE+TEST@Example.COM")))
    × ((k : Address) × (k.text ≡ local_key alice)
        × (parse (local_key alice) ≡ some k)
        × (local_key k ≡ local_key alice))
parse-local_key_example =
    parse-local_key (codes "Alice+test@EXAMPLE.com") (codes "ALICE+TEST@Example.COM") alice shouting
      parse-alice parse-shouting

parse-is_path_byte_example : (all is_path_byte alice.text ≡ true) × (length alice.text ≤ 254)
parse-is_path_byte_example = parse-is_path_byte (codes "Alice+test@EXAMPLE.com") alice parse-alice
