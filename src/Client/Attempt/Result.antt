-- ===== src/Client/Attempt/Result.antt =====
-- `attempt` tells the queue how far it has come.
use rustymail.Base.{◌≤◌, ◌≡◌, refl, sym, subst, Bool, true, false, List, [], Option}
use rustymail.Base.Try.{Try, good, bad}
use rustymail.Bytes.{Bytes}
use rustymail.Client.{
  SmtpClient, Message, Failure, connection, setup, content, AttemptResult, delivered, temporary,
  permanent, connection_lost, hold, deferred,
}
use rustymail.Client.Wire.{Wire, Event}
use rustymail.Client.Payload.Sent.{body_of}
use rustymail.Client.Attempt.{attempt, settle, try_attempt}
use rustymail.Client.Attempt.Quiet.{dotted, IsQuiet}
use rustymail.Client.Attempt.Outcome.{try_attempt-Safe}
use rustymail.Client.Attempt.Fits.{IsComplete, Fits, IsBehindDot}
use rustymail.Client.Attempt.Heard.{has_reply}
use rustymail.Client.Reply.Bounds.{Answered}

-- What the result of an attempt says of its writes and of the lines received.
abbrev pub Says : List Event → AttemptResult → Type 0
Says log (delivered code) =
    (dotted log ≡ true) × (200 ≤ code) × (code ≤ 299) × Answered IsBehindDot code log
Says log (temporary code) = (400 ≤ code) × (code ≤ 499) × (has_reply code log ≡ true)
Says log (permanent code) = (500 ≤ code) × (code ≤ 599) × (has_reply code log ≡ true)
Says log connection_lost = Unit
Says log hold = dotted log ≡ false
Says log deferred = dotted log ≡ false

settle-Says : (log : List Event) (r : Try Failure AttemptResult) → Fits log r → Says log (settle r)
unfolding settle
settle-Says log (good (delivered code)) f = f
settle-Says log (good (temporary code)) f = f
settle-Says log (good (permanent code)) f = f
settle-Says log (good connection_lost) f = tt
settle-Says log (good hold) f = absurd f
settle-Says log (good deferred) f = absurd f
settle-Says log (bad connection) f = tt
settle-Says log (bad setup) f = f
settle-Says log (bad content) f = f

-- However the peer behaves and whenever the connection breaks, an attempt over a wire on which nothing
-- has been written tries the final dot only after `before_body` has succeeded and the whole file has
-- been read and written, dot-stuffed and without the prefix to omit. For a delivered message the latest
-- line received carries its code, from 200 to 299, and behind the final dot nothing but lines of the
-- reply has gone over the wire; a temporary or a permanent refusal has a code of its class that a line
-- received carries; a message on hold or deferred has had no final dot.
pub attempt-Says :
    (client : SmtpClient) (marks : Bool) (m : Message) (reads : List (Option Bytes)) (w : Wire)
    → w.log ≡ []
    → let after = attempt client marks m reads w in
      (dotted after.0.log ≡ true → IsComplete m reads after.0.log) × Says after.0.log after.1
unfolding attempt
attempt-Says client marks m reads w e =
    let quiet : IsQuiet w =
      subst (λ (log : List Event). (dotted log ≡ false) × (body_of log ≡ [])) (sym e)
        (refl, refl) in
    let (whole, fits) = try_attempt-Safe m reads client marks w quiet in
    let after = try_attempt client marks m reads w in (whole, settle-Says after.0.log after.1 fits)
