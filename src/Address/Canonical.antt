-- ===== src/Address/Canonical.antt =====
-- Accepted addresses are in canonical form: parsing the text of one gives it back.
use rustymail.Base.{
  ◌≤◌, ◌≡◌, refl, sym, ap, ◌∙◌, ◌↔◌, true, false, ◌∷◌, ◌++◌, Option, none, some, arith, length,
  length-append, length-map,
}
use rustymail.Bytes.{Bytes, to_lower, lowercase, contains, rsplit_once}
use rustymail.Bytes.Split.{SplitLast, rsplit_once-SplitLast, rsplit_once-append}
use rustymail.Bytes.Case.{lowercase_idem}
use rustymail.Address.Case.{
  valid_domain-lowercase, contains-lowercase, at_symbol, valid_local-lowercase, lowercase-at,
}
use rustymail.Address.{Address, valid_domain, valid_local, parse_parts, parse, domain, local_key}

-- What `parse` has checked: a local part, and a valid domain in lower case with no `@`.
pub record IsCanonical (a : Address) : Type 0 where
  pub local : Bytes
  pub host : Bytes
  pub text_is : a.text ≡ local ++ (b'@' ∷ host)
  pub local_ok : valid_local local ≡ true
  pub host_ok : valid_domain host ≡ true
  pub host_lower : lowercase host ≡ host
  pub host_no_at : contains b'@' host ≡ false
  pub short : length a.text ≤ 254

-- A text that `parse` accepts, taken apart.
pub record Parsed (input : Bytes) (a : Address) : Type 0 where
  pub local : Bytes
  pub host : Bytes
  pub input_is : input ≡ local ++ (b'@' ∷ host)
  pub text_is : a.text ≡ local ++ (b'@' ∷ lowercase host)
  pub local_ok : valid_local local ≡ true
  pub host_ok : valid_domain host ≡ true
  pub host_no_at : contains b'@' host ≡ false
  pub short : length input ≤ 254

parse_parts-Parsed :
    (input : Bytes) (r : Option (Bytes × Bytes)) {a : Address}
    → SplitLast b'@' input r
    → parse_parts input r ≡ some a
    → Parsed input a
unfolding parse_parts
parse_parts-Parsed input none s h = cc
parse_parts-Parsed input (some (l, d)) {a} s h = record {
  local = l;
  host = d;
  input_is = s.0;
  text_is = ground arith;
  local_ok = ground arith;
  host_ok = ground arith;
  host_no_at = s.1;
  short = ground arith;
}

pub parse-Parsed : (input : Bytes) {a : Address} → parse input ≡ some a → Parsed input a
unfolding parse
parse-Parsed input =
    parse_parts-Parsed input (rsplit_once b'@' input) (rsplit_once-SplitLast b'@' input)

pub Parsed-IsCanonical : {input : Bytes} {a : Address} → Parsed input a → IsCanonical a
Parsed-IsCanonical {input} {a} p = record {
  local = p.local;
  host = lowercase p.host;
  text_is = p.text_is;
  local_ok = p.local_ok;
  host_ok = valid_domain-lowercase p.host ∙ p.host_ok;
  host_lower = lowercase_idem p.host;
  host_no_at = contains-lowercase b'@' p.host at_symbol ∙ p.host_no_at;
  short = omega (
    arith,
    p.short,
    ap length p.text_is,
    ap length p.input_is,
    length-append p.local (b'@' ∷ p.host),
    length-append p.local (b'@' ∷ lowercase p.host),
    length-map to_lower p.host,
  );
}

parse_parts-IsCanonical :
    {a : Address} (c : IsCanonical a) → parse_parts a.text (some (c.local, c.host)) ≡ some a
unfolding parse_parts
parse_parts-IsCanonical c = ground arith

pub rsplit_once-IsCanonical :
    {a : Address} (c : IsCanonical a) → rsplit_once b'@' a.text ≡ some (c.local, c.host)
rsplit_once-IsCanonical c = rw (c.text_is) (rsplit_once-append b'@' c.local c.host c.host_no_at)

-- The text of a canonical address parses to that address.
pub IsCanonical-parse : {a : Address} → IsCanonical a → parse a.text ≡ some a
IsCanonical-parse {a} c =
    unfold parse in ap (parse_parts a.text) (rsplit_once-IsCanonical c) ∙ parse_parts-IsCanonical c

-- An accepted text is a local part, an `@` and a domain with no `@`. The accepted address keeps the
-- local part byte for byte and has the domain in lower case, and its text parses to itself.
pub parse_canonical :
    (input : Bytes) (a : Address)
    → parse input ≡ some a
    → (local : Bytes) × (host : Bytes) × (input ≡ local ++ (b'@' ∷ host))
      × (contains b'@' host ≡ false)
      × (a.text ≡ local ++ (b'@' ∷ lowercase host))
      × (parse a.text ≡ some a)
parse_canonical input a h =
    let p = parse-Parsed input h in
    (p.local, p.host, p.input_is, p.host_no_at, p.text_is, IsCanonical-parse (Parsed-IsCanonical p))

pub domain-IsCanonical : {a : Address} (c : IsCanonical a) → domain a ≡ c.host
unfolding domain
domain-IsCanonical c = rw (rsplit_once-IsCanonical c, domain)

-- The domain of an accepted address is a valid domain in lower case.
pub domain-parse :
    (input : Bytes) (a : Address)
    → parse input ≡ some a
    → (valid_domain (domain a) ≡ true) × (lowercase (domain a) ≡ domain a)
domain-parse input a h =
    let c = Parsed-IsCanonical (parse-Parsed input h) in
    rw (domain-IsCanonical c) (c.host_ok, c.host_lower)

lowercase-parse :
    (input : Bytes) (a : Address) → parse input ≡ some a → lowercase a.text ≡ lowercase input
lowercase-parse input a h =
    let p = parse-Parsed input h in
    ap lowercase p.text_is
    ∙ lowercase-at p.local (lowercase p.host)
    ∙ ap (λ (d : Bytes). lowercase p.local ++ (b'@' ∷ d)) (lowercase_idem p.host)
    ∙ sym (ap lowercase p.input_is ∙ lowercase-at p.local p.host)

IsCanonical-lowercase :
    (a : Address) → IsCanonical a → IsCanonical (record { text = lowercase a.text })
IsCanonical-lowercase a c = record {
  local = lowercase c.local;
  host = c.host;
  text_is =
      ap lowercase c.text_is
      ∙ lowercase-at c.local c.host
      ∙ ap (λ (h : Bytes). lowercase c.local ++ (b'@' ∷ h)) c.host_lower;
  local_ok = valid_local-lowercase c.local c.local_ok;
  host_ok = c.host_ok;
  host_lower = c.host_lower;
  host_no_at = c.host_no_at;
  short = omega (arith, c.short, length-map to_lower a.text);
}

-- Two accepted texts have the same key in the local namespace exactly when they are equal up to the
-- case of ASCII letters, in the local part as in the domain. The key is itself the text of an accepted
-- address, and is its own key.
pub parse-local_key :
    (input other : Bytes) (a b : Address)
    → parse input ≡ some a
    → parse other ≡ some b
    → ((local_key a ≡ local_key b) ↔ (lowercase input ≡ lowercase other))
      × ((k : Address) × (k.text ≡ local_key a)
          × (parse (local_key a) ≡ some k)
          × (local_key k ≡ local_key a))
unfolding local_key
parse-local_key input other a b h g =
    let low = IsCanonical-lowercase a (Parsed-IsCanonical (parse-Parsed input h)) in
    let ours = lowercase-parse input a h in
    let theirs = lowercase-parse other b g in
    (
      (λ e. sym ours ∙ e ∙ theirs, λ e. ours ∙ e ∙ sym theirs),
      (record { text = lowercase a.text }, refl, IsCanonical-parse low, lowercase_idem a.text),
    )
