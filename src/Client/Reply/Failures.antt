-- ===== src/Client/Reply/Failures.antt =====
-- A reply that cannot be read is a lost connection.
use rustymail.Base.{
  ℕ, zero, suc, ◌+◌, ◌≡◌, refl, Bool, true, false, ◌&&◌, ◌==◌, ltb, if◌then◌else◌, List, [], ◌∷◌,
  Option, none, some, length, drop, arith,
}
use rustymail.Base.Try.{Try, good, bad}
use rustymail.Bytes.{Bytes}
use rustymail.Framing.{LineDecoder, Reader, new, feed_buffered}
use rustymail.Client.{Failure, connection, Capabilities, default_capabilities}
use rustymail.Client.Wire.{Wire, line, line_loop, found_on, Found, chunks_of}
use rustymail.Client.Wire.Fails.{
  Fails, FailsIn, chain-Fails, then-Fails, ensure-Fails, give-Fails, fail-Fails, from_try-Fails,
  if_Fails,
}
use rustymail.Client.Reply.{
  present, words, note_capability, number_of, size_limit, response_from, response,
}

abbrev pub IsConnection : Failure → Type 0
IsConnection e = e ≡ connection

found_on-Fails :
    (w : Wire) (f : Found) → FailsIn IsConnection f → FailsIn IsConnection (found_on w f).1
found_on-Fails w (bad e) h = h
found_on-Fails w (good none) h = tt
found_on-Fails w (good (some (l, left, chunks))) h = tt

line_loop-Fails : (chunks : Reader) (d : LineDecoder) → FailsIn IsConnection (line_loop d chunks)
unfolding line_loop
line_loop-Fails [] d = ground arith
line_loop-Fails (chunk ∷ chunks) d =
    ground (arith, line_loop-Fails chunks (feed_buffered d chunk).0)

line-Fails : (limit : ℕ) → Fails IsConnection (line limit)
unfolding line
line-Fails limit w =
    found_on-Fails w (line_loop (new limit) (chunks_of w))
      (line_loop-Fails (chunks_of w) (new limit))

present-Fails : (o : Option Bytes) → Fails IsConnection (present o)
present-Fails none = fail-Fails IsConnection _ connection refl
present-Fails (some l) = give-Fails IsConnection l

size_limit-Fails : (ws : List Bytes) (c : Capabilities) → FailsIn IsConnection (size_limit c ws)
size_limit-Fails [] c = tt
size_limit-Fails (w ∷ ws) c = ground arith

if_FailsIn :
    (b : Bool) (x y : Try Failure Capabilities)
    → FailsIn IsConnection x
    → FailsIn IsConnection y
    → FailsIn IsConnection (if b then x else y)
if_FailsIn true x y h k = h
if_FailsIn false x y h k = k

note_capability-Fails :
    (ws : List Bytes) (c : Capabilities) → FailsIn IsConnection (note_capability ws c)
unfolding note_capability
note_capability-Fails [] c = tt
note_capability-Fails (name ∷ rest) c = ground (arith, size_limit-Fails rest c)

response_from-Fails :
    (rounds index : ℕ) (capture : Bool) (code : Option ℕ) (total : ℕ) (c : Capabilities)
    → Fails IsConnection (response_from rounds index capture code total c)
unfolding response_from
response_from-Fails zero index capture code total c = fail-Fails IsConnection _ connection refl
response_from-Fails (suc rounds) index capture code total c =
    let C = IsConnection in
    chain-Fails C _ _ (line-Fails 512) (λ read. chain-Fails C _ _ (present-Fails read) (λ l.
      then-Fails C _ _ (ensure-Fails C _ _ refl) (
        then-Fails C _ _ (ensure-Fails C _ _ refl) (
          then-Fails C _ _ (ensure-Fails C _ _ refl) (
            chain-Fails C _ _
              (from_try-Fails C _ (
                if_FailsIn (capture && ltb 0 index && number_of l == 250)
                  (note_capability (words (drop 4 l)) c) (good c)
                  (note_capability-Fails (words (drop 4 l)) c) tt))
              (λ noted. if_Fails C _ _ _ (give-Fails C _) (
                response_from-Fails rounds (index + 1) capture (some (number_of l))
                  (total + length l + 2) noted)))))))

-- Reading a reply fails in no other way.
pub response-Fails : (capture : Bool) → Fails IsConnection (response capture)
unfolding response
response-Fails capture = response_from-Fails 64 0 capture none 0 default_capabilities
