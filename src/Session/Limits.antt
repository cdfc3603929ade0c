-- ===== src/Session/Limits.antt =====
-- What every session keeps: its limits, and an envelope that is within them.
use rustymail.Base.{
  ℕ, ◌≤◌, ◌≡◌, refl, ap, Bool, true, false, List, [], ◌∷◌, ◌++◌, Option, none, some, arith, length,
  length-append, any, is_some,
}
use rustymail.Bytes.{Bytes, equal, equal_iff, lowercase}
use rustymail.Address.{Address}
use rustymail.Command.{Command, mail, rcpt, data_command}
use rustymail.Session.{
  Envelope, Session, new, apply, route, route_in, same_recipient, routed_recipient_result,
}

-- No recipient stands in the list twice.
abbrev pub Distinct : List Address → Type 0
Distinct [] = Unit
Distinct (a ∷ rest) = (any (λ (b : Address). equal b.text a.text) rest ≡ false) × Distinct rest

abbrev pub Fits : ℕ → Option Envelope → Type 0
Fits max none = Unit
Fits max (some tx) = (length tx.recipients ≤ max) × Distinct tx.recipients

pub record IsValid (s : Session) : Type 0 where
  pub greeted : (is_some s.transaction ≡ true) → (is_some s.greeting ≡ true)
  pub extended_greeted : s.extended ≡ true → (is_some s.greeting ≡ true)
  pub fits : Fits s.max_recipients s.transaction

pub new-IsValid : (bytes recipients : ℕ) → IsValid (new bytes recipients)
unfolding new
new-IsValid bytes recipients = ground arith

pub apply-IsValid : (s : Session) (c : Command) → IsValid s → IsValid (apply s c).0
unfolding apply
apply-IsValid s (mail sender size body) v = ground arith
apply-IsValid s (rcpt a) v = ground arith
apply-IsValid s data_command v = ground arith
apply-IsValid s _ v = ground arith

equal_sym : (a b : Bytes) → equal a b ≡ false → equal b a ≡ false
unfolding equal
equal_sym [] [] h = h
equal_sym [] (y ∷ b) h = refl
equal_sym (x ∷ a) [] h = refl
equal_sym (x ∷ a) (y ∷ b) h = ground (arith, equal_sym a b)

equal_refl : (a : Bytes) → equal a a ≡ true
equal_refl a = (equal_iff a a).1 refl

-- The same text counts as the same recipient, for local routing too.
same_recipient-equal :
    (local : Bool) (a b : Address) → equal b.text a.text ≡ true → same_recipient local a b ≡ true
unfolding same_recipient
same_recipient-equal false a b h = h
same_recipient-equal true a b h =
    (equal_iff (lowercase b.text) (lowercase a.text)).1
      (ap lowercase ((equal_iff b.text a.text).0 h))

not-same_recipient :
    (local : Bool) (a b : Address) → same_recipient local a b ≡ false → equal a.text b.text ≡ false
not-same_recipient local a b h =
    equal_sym b.text a.text (ground (arith, same_recipient-equal local a b))

any-concat :
    (p : Address → Bool) (xs : List Address) (a : Address)
    → any p xs ≡ false
    → p a ≡ false
    → any p (xs ++ (a ∷ [])) ≡ false
any-concat p [] a h k = ground arith
any-concat p (x ∷ xs) a h k = ground (arith, any-concat p xs a)

Distinct-concat :
    (local : Bool) (a : Address) (xs : List Address)
    → Distinct xs
    → any (same_recipient local a) xs ≡ false
    → Distinct (xs ++ (a ∷ []))
Distinct-concat local a [] d h = (refl, tt)
Distinct-concat local a (x ∷ xs) d h = (
  any-concat (λ (b : Address). equal b.text x.text) xs a d.0
      (not-same_recipient local a x (ground arith)),
  Distinct-concat local a xs d.1 (ground arith),
)

route-IsValid :
    (s : Session) (tx : Envelope) (a : Address) (exists local : Bool)
    → s.transaction ≡ some tx
    → IsValid s
    → IsValid (route s tx a exists local).0
unfolding route
route-IsValid s tx a exists local e v =
    ground (arith, length-append tx.recipients (a ∷ []), Distinct-concat local a tx.recipients)

route_in-IsValid :
    (s : Session) (t : Option Envelope) (a : Address) (exists local : Bool)
    → s.transaction ≡ t
    → IsValid s
    → IsValid (route_in s t a exists local).0
unfolding route_in
route_in-IsValid s none a exists local e v = v
route_in-IsValid s (some tx) a exists local e v = route-IsValid s tx a exists local e v

pub routed_recipient_result-IsValid :
    (s : Session) (a : Address) (exists local : Bool)
    → IsValid s
    → IsValid (routed_recipient_result s a exists local).0
unfolding routed_recipient_result
routed_recipient_result-IsValid s a exists local v =
    route_in-IsValid s s.transaction a exists local refl v
