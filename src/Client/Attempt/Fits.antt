-- ===== src/Client/Attempt/Fits.antt =====
-- What each result of an attempt says about the log, and the proofs of it before the final dot.
use rustymail.Base.{ℕ, ◌≤◌, ◌≡◌, Bool, true, false, List, [], ◌∷◌, Option, none, some, arith}
use rustymail.Base.Try.{Try, good, bad}
use rustymail.Bytes.{Bytes}
use rustymail.Client.{
  Failure, connection, setup, content, Message, AttemptResult, delivered, temporary, permanent,
  rejected,
}
use rustymail.Client.Wire.{Wire, Act, Event, body, final_dot, received, write}
use rustymail.Client.Wire.Steps.{
  Keeps, chain-Keeps, then-Keeps, ensure-Keeps, give-Keeps, fail-Keeps, from_try-Keeps,
}
use rustymail.Client.Reply.Bounds.{Answered}
use rustymail.Client.Attempt.Heard.{has_reply}
use rustymail.Client.Payload.{send_body, send_chunks, Reading, advance, fed_to, start}
use rustymail.Client.Payload.Sent.{body_of, stored}
use rustymail.Client.Payload.Whole.{IsWhole}
use rustymail.Client.Attempt.Quiet.{dotted, is_marked, IsQuiet}

-- The body keeps what a write of body bytes keeps.
send_chunks-Keeps :
    (P : Wire → Type 0) (m : Message) (reads : List (Option Bytes)) (r : Reading)
    → ((b : Bytes) → Keeps P (write (body b)))
    → Keeps P (send_chunks m reads r)
unfolding send_chunks
send_chunks-Keeps P m [] r k = give-Keeps P r
send_chunks-Keeps P m (none ∷ reads) r k = fail-Keeps P _ content
send_chunks-Keeps P m (some [] ∷ reads) r k = give-Keeps P r
send_chunks-Keeps P m (some (c ∷ cs) ∷ reads) r k = then-Keeps P _ _ (ensure-Keeps P _ _) (
    chain-Keeps P _ _ (from_try-Keeps P (fed_to m r (c ∷ cs))) (λ fed.
      then-Keeps P _ _ (k fed.1.output) (send_chunks-Keeps P m reads (advance r (c ∷ cs) fed) k)))

pub send_body-Keeps :
    (P : Wire → Type 0) (m : Message) (reads : List (Option Bytes))
    → ((b : Bytes) → Keeps P (write (body b)))
    → Keeps P (send_body m reads)
unfolding send_body
send_body-Keeps P m reads k =
    chain-Keeps P _ _ (send_chunks-Keeps P m reads start k) (λ r. ensure-Keeps P _ _)

-- The message has been written whole, and then the final dot tried.
abbrev pub IsComplete : Message → List (Option Bytes) → List Event → Type 0
IsComplete m reads log =
    (dotted log ≡ true) × (is_marked log ≡ true) × IsWhole m (stored reads) (body_of log)

-- Since the final dot nothing has been done but receive lines.
abbrev pub behind_dot : List Event → Bool
behind_dot [] = false
behind_dot (final_dot ∷ log) = true
behind_dot (received l ∷ log) = behind_dot log
behind_dot (_ ∷ log) = false

abbrev pub IsBehindDot : List Event → Type 0
IsBehindDot log = behind_dot log ≡ true

-- A final dot only behind a whole message, and what each result says.
abbrev pub Fits : List Event → Try Failure AttemptResult → Type 0
Fits log (good (delivered code)) =
    (dotted log ≡ true) × (200 ≤ code) × (code ≤ 299) × Answered IsBehindDot code log
Fits log (good (temporary code)) = (400 ≤ code) × (code ≤ 499) × (has_reply code log ≡ true)
Fits log (good (permanent code)) = (500 ≤ code) × (code ≤ 599) × (has_reply code log ≡ true)
Fits log (good _) = ⊥
Fits log (bad connection) = Unit
Fits log (bad _) = dotted log ≡ false

abbrev pub Verdict : Message → List (Option Bytes) → Wire × Try Failure AttemptResult → Type 0
Verdict m reads (w, r) = (dotted w.log ≡ true → IsComplete m reads w.log) × Fits w.log r

abbrev pub Safe : Message → List (Option Bytes) → Act AttemptResult → Type 0
Safe m reads act = (w : Wire) → IsQuiet w → Verdict m reads (act w)

pub undotted :
    (m : Message) (reads : List (Option Bytes)) (log : List Event)
    → dotted log ≡ false
    → dotted log ≡ true
    → IsComplete m reads log
undotted m reads log h d = ground arith

pub failed_quiet :
    (m : Message) (reads : List (Option Bytes)) (w : Wire) (e : Failure)
    → dotted w.log ≡ false
    → Verdict m reads (w, bad e)
failed_quiet m reads w connection h = (undotted m reads w.log h, tt)
failed_quiet m reads w setup h = (undotted m reads w.log h, h)
failed_quiet m reads w content h = (undotted m reads w.log h, h)

pub rejected-Fits :
    (log : List Event) (code : ℕ) → has_reply code log ≡ true → Fits log (rejected code)
unfolding rejected
rejected-Fits log code h = ground arith
