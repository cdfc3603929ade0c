-- ===== src/Server/Rounds.antt =====
-- The session loop over a sequence of command lines.
use rustymail.Base.{
  ◌≡◌, refl, Bool, true, false, List, [], ◌∷◌, ◌++◌, Option, none, some, arith, is_some, all,
  all_mono, All, All-append,
}
use rustymail.Bytes.{Bytes}
use rustymail.Address.{Address}
use rustymail.Session.{new}
use rustymail.Server.{
  Settings, Inputs, Connection, Principal, Output, says, greets, begins, Round, goes_on, closes,
  fails, has_auth, is_local, round, connected,
}
use rustymail.Server.Guard.{IsGuarded, Begins, MaySend, Passes, may_name}
use rustymail.Server.Guard.Lines.{round-Passes}

-- what follows a round, unless it has ended the loop
abbrev continued : Round → (Connection → List Output) → List Output
continued (c, outputs, goes_on) rest = outputs ++ rest c
continued (c, outputs, _) rest = outputs

-- What the loop writes for these lines, each with the answers that it meets.
unfoldable pub outputs_of : Settings → Connection → List (Inputs × Bytes) → List Output
unfolding round
outputs_of s c [] = []
outputs_of s c ((i, line) ∷ rest) = continued (round s i c line) (λ after. outputs_of s after rest)

-- no more is asked of a principal than to be there
abbrev anyone : Principal → Address → Bool
anyone p a = true

-- A message that a listener may begin to receive.
abbrev pub IsLawful : Settings → Output → Type 0
IsLawful s (begins envelope) =
    (has_auth s ≡ true → is_some envelope.sender ≡ true)
    × (has_auth s ≡ false → all (is_local s) envelope.recipients ≡ true)
IsLawful s _ = Unit

only_local :
    (s : Settings) (recipients : List Address)
    → all (may_name s false) recipients ≡ true
    → all (is_local s) recipients ≡ true
only_local s recipients = all_mono (may_name s false) (is_local s) recipients (λ a h. ground arith)

named_sender :
    (p : Option Principal) (sender : Option Address)
    → MaySend anyone p sender
    → is_some sender ≡ true
named_sender none sender h = absurd h
named_sender (some p) none h = absurd h
named_sender (some p) (some a) h = refl

Begins-IsLawful :
    (s : Settings) (c : Connection) (o : Output)
    → IsGuarded anyone s c
    → Begins anyone s c o
    → IsLawful s o
Begins-IsLawful s c (begins envelope) g (vetted, named) = (
  λ e. named_sender c.principal envelope.sender (vetted e),
  λ e.
      only_local s envelope.recipients
        (anonymous (is_some c.principal) e named (λ h. (g.secure h).1)),
)
  where
    anonymous :
        (known : Bool)
        → has_auth s ≡ false
        → all (may_name s known) envelope.recipients ≡ true
        → (known ≡ true → has_auth s ≡ true)
        → all (may_name s false) envelope.recipients ≡ true
    anonymous false e h k = h
    anonymous true e h k = ground (arith, k refl)
Begins-IsLawful s c (says r) g b = tt
Begins-IsLawful s c (greets extended offered) g b = tt

every_output :
    (s : Settings) (c : Connection) (outputs : List Output)
    → IsGuarded anyone s c
    → All (Begins anyone s c) outputs
    → All (IsLawful s) outputs
every_output s c [] g b = tt
every_output s c (o ∷ outputs) g (b, rest) =
    (Begins-IsLawful s c o g b, every_output s c outputs g rest)

continued-IsLawful :
    (s : Settings) (r : Round) (rest : Connection → List Output)
    → Passes anyone s r
    → ((c : Connection) → IsGuarded anyone s c → All (IsLawful s) (rest c))
    → All (IsLawful s) (continued r rest)
continued-IsLawful s (c, outputs, goes_on) rest (g, b) k =
    All-append (IsLawful s) outputs (rest c) (every_output s c outputs g b) (k c g)
continued-IsLawful s (c, outputs, closes) rest (g, b) k = every_output s c outputs g b
continued-IsLawful s (c, outputs, fails) rest (g, b) k = every_output s c outputs g b

guarded_outputs :
    (s : Settings) (lines : List (Inputs × Bytes)) (c : Connection)
    → IsGuarded anyone s c
    → All (IsLawful s) (outputs_of s c lines)
unfolding outputs_of
guarded_outputs s [] c g = tt
guarded_outputs s ((i, line) ∷ rest) c g =
    continued-IsLawful s (round s i c line) (λ after. outputs_of s after rest)
      (round-Passes anyone s i c line (λ p a _. refl) g) (guarded_outputs s rest)

pub connected-IsGuarded :
    (v : Principal → Address → Bool) (s : Settings) → IsGuarded v s (connected s)
unfolding connected new
connected-IsGuarded v s = record { secure = λ h. ground arith; guards = tt }

-- Whatever a client sends and whatever the parts around the loop answer, a listener without
-- authentication receives messages for local recipients alone, so it relays for nobody, and one with
-- authentication receives none without a sender.
pub outputs-IsLawful :
    (s : Settings) (lines : List (Inputs × Bytes))
    → All (IsLawful s) (outputs_of s (connected s) lines)
outputs-IsLawful s lines = guarded_outputs s lines (connected s) (connected-IsGuarded anyone s)
