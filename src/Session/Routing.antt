-- ===== src/Session/Routing.antt =====
-- What the answer to a recipient changes in the envelope.
use rustymail.Base.{
  ◌≡◌, refl, ◌∷◌, [], Bool, true, false, Option, none, some, arith, all, all-append, leb, length,
  any, inl, inr, Bool-cases,
}
use rustymail.Address.{Address}
use rustymail.Session.{Envelope, Session, route, route_in, same_recipient, routed_recipient_result}

-- The recipients pass a test, and the sender is the one of another transaction.
abbrev pub Keeps : (Address → Bool) → Option Envelope → Option Envelope → Type 0
Keeps p none _ = Unit
Keeps p (some tx) none = ⊥
Keeps p (some tx) (some old) = (tx.sender ≡ old.sender) × (all p tx.recipients ≡ true)

abbrev pub AllPass : (Address → Bool) → Option Envelope → Type 0
AllPass p none = Unit
AllPass p (some tx) = all p tx.recipients ≡ true

routed :
    (p : Address → Bool) (s : Session) (tx : Option Envelope) (a : Address) (exists local : Bool)
    → (exists ≡ true → p a ≡ true)
    → s.transaction ≡ tx
    → AllPass p tx
    → Keeps p (route_in s tx a exists local).0.transaction tx
unfolding route_in route
routed p s none a exists local e same h = rw same tt
routed p s (some tx) a false local e same h = rw same (refl, h)
routed p s (some tx) a true local e same h =
    elim (Bool-cases (any (same_recipient local a) tx.recipients)) [
      | inl again ↦ rw (again, same) (refl, h)
      | inr fresh ↦ rw fresh (elim (Bool-cases (leb s.max_recipients (length tx.recipients))) [
        | inl full ↦ rw (full, same) (refl, h)
        | inr room ↦ rw room (refl, all-append p tx.recipients (a ∷ []) h (ground (arith, e refl)))
      ])
    ]

-- A recipient joins only when it exists.
pub routed-Keeps :
    (p : Address → Bool) (s : Session) (a : Address) (exists local : Bool)
    → (exists ≡ true → p a ≡ true)
    → AllPass p s.transaction
    → Keeps p (routed_recipient_result s a exists local).0.transaction s.transaction
unfolding routed_recipient_result
routed-Keeps p s a exists local e h = routed p s s.transaction a exists local e refl h
