-- ===== src/Client/Attempt/Quiet.antt =====
-- Up to the reply to DATA an attempt writes no part of the message.
use rustymail.Base.{ℕ, ◌≡◌, Bool, true, false, not, ◌&&◌, ◌==◌, List, [], ◌∷◌, Option, none, some}
use rustymail.Bytes.{Bytes}
use rustymail.Framing.{Reader}
use rustymail.Client.{Response, SmtpClient}
use rustymail.Client.Wire.{
  Wire, Event, command, final_dot, marked, received, write, upgrade, handshake, give,
}
use rustymail.Client.Wire.Steps.{Keeps, chain-Keeps, then-Keeps, ensure-Keeps, give-Keeps, if_Keeps}
use rustymail.Client.Reply.{response}
use rustymail.Client.Reply.Bounds.{response-OnLog}
use rustymail.Client.Payload.Sent.{body_of}
use rustymail.Client.Attempt.{
  exchange, greet, start_tls, answer, authorize, connect, pipeline_codes, envelope_pipeline,
}

-- The write of the final dot has been tried.
abbrev pub dotted : List Event → Bool
dotted [] = false
dotted (final_dot ∷ log) = true
dotted (_ ∷ log) = dotted log

-- `before_body` has succeeded.
abbrev pub is_marked : List Event → Bool
is_marked [] = false
is_marked (marked ∷ log) = true
is_marked (_ ∷ log) = is_marked log

-- Nothing of the message has been written.
abbrev pub IsQuiet : Wire → Type 0
IsQuiet w = (dotted w.log ≡ false) × (body_of w.log ≡ [])

-- A property of the log alone.
pub response-Keeps :
    (P : List Event → Type 0) (capture : Bool)
    → ((l : Bytes) (log : List Event) → P log → P (received l ∷ log))
    → Keeps (λ (w : Wire). P w.log) (response capture)
response-Keeps P capture step = response-OnLog P step capture

pub write-Keeps :
    (P : List Event → Type 0) (e : Event)
    → ((log : List Event) → P log → P (e ∷ log))
    → Keeps (λ (w : Wire). P w.log) (write e)
unfolding write
write-Keeps P e step w h = step w.log h

abbrev Quiet : List Event → Type 0
Quiet log = (dotted log ≡ false) × (body_of log ≡ [])

pub exchange-Keeps : (text : Bytes) (capture : Bool) → Keeps IsQuiet (exchange text capture)
unfolding exchange
exchange-Keeps text capture =
    then-Keeps IsQuiet _ _ (write-Keeps Quiet (command text) (λ log h. h))
      (response-Keeps Quiet capture (λ l log h. h))

shaken : (w : Wire) (o : Option Reader) → IsQuiet w → IsQuiet (handshake w o).0
shaken w none h = h
shaken w (some chunks) h = h

upgrade-Keeps : (has_tls : Bool) → Keeps IsQuiet (upgrade has_tls)
unfolding upgrade
upgrade-Keeps true w h = shaken w w.secured h
upgrade-Keeps false w h = h

greet-Keeps : (c : SmtpClient) → Keeps IsQuiet (greet c)
unfolding greet
greet-Keeps c = chain-Keeps IsQuiet _ _ (response-Keeps Quiet false (λ l log h. h)) (λ banner.
    then-Keeps IsQuiet _ _ (ensure-Keeps IsQuiet _ _) (
      chain-Keeps IsQuiet _ _ (exchange-Keeps _ true)
        (λ ehlo. then-Keeps IsQuiet _ _ (ensure-Keeps IsQuiet _ _) (give-Keeps IsQuiet ehlo))))

start_tls-Keeps : (c : SmtpClient) (ehlo : Response) → Keeps IsQuiet (start_tls c ehlo)
unfolding start_tls
start_tls-Keeps c ehlo = then-Keeps IsQuiet _ _ (ensure-Keeps IsQuiet _ _) (
    chain-Keeps IsQuiet _ _ (exchange-Keeps _ false) (λ ready.
      then-Keeps IsQuiet _ _ (ensure-Keeps IsQuiet _ _) (
        then-Keeps IsQuiet _ _ (upgrade-Keeps c.tls) (
          chain-Keeps IsQuiet _ _ (exchange-Keeps _ true) (λ again.
            then-Keeps IsQuiet _ _ (ensure-Keeps IsQuiet _ _) (give-Keeps IsQuiet again))))))

answer-Keeps : (token : Bytes) (code : ℕ) → Keeps IsQuiet (answer token code)
unfolding answer
answer-Keeps token code =
    if_Keeps IsQuiet {T = ℕ} (code == 334) _ _
      (chain-Keeps IsQuiet {T = Response} {U = ℕ} _ _ (exchange-Keeps _ false)
        (λ r. give-Keeps IsQuiet r.code))
      (give-Keeps IsQuiet code)

authorize-Keeps :
    (c : SmtpClient) (token : Option Bytes) (ehlo : Response)
    → Keeps IsQuiet (authorize c token ehlo)
unfolding authorize
authorize-Keeps c none ehlo = give-Keeps IsQuiet tt
authorize-Keeps c (some token) ehlo = then-Keeps IsQuiet _ _ (ensure-Keeps IsQuiet _ _) (
    chain-Keeps IsQuiet _ _ (exchange-Keeps _ false) (λ first.
      chain-Keeps IsQuiet _ _ (answer-Keeps token first.code) (λ code. ensure-Keeps IsQuiet _ _)))

pub connect-Keeps : (c : SmtpClient) → Keeps IsQuiet (connect c)
unfolding connect
connect-Keeps c =
    then-Keeps IsQuiet _ _
      (if_Keeps IsQuiet {T = Unit {0}} (c.tls && not c.starttls) _ _ (upgrade-Keeps c.tls)
        (give-Keeps IsQuiet tt))
      (chain-Keeps IsQuiet _ _ (greet-Keeps c) (λ first.
        chain-Keeps IsQuiet _ _
          (if_Keeps IsQuiet {T = Response} c.starttls _ _ (start_tls-Keeps c first)
            (give-Keeps IsQuiet first))
          (λ ehlo.
            then-Keeps IsQuiet _ _ (authorize-Keeps c c.authorization ehlo)
              (give-Keeps IsQuiet ehlo))))

pipeline_codes-Keeps : Keeps IsQuiet pipeline_codes
unfolding pipeline_codes
pipeline_codes-Keeps = chain-Keeps IsQuiet _ _ (response-Keeps Quiet false (λ l log h. h)) (λ a.
    if_Keeps IsQuiet {T = ℕ × ℕ × ℕ} (a.code == 421) (give (a.code, 0, 0)) _ (give-Keeps IsQuiet _)
      (chain-Keeps IsQuiet _ _ (response-Keeps Quiet false (λ l log h. h)) (λ b.
        if_Keeps IsQuiet {T = ℕ × ℕ × ℕ} (b.code == 421) (give (a.code, b.code, 0)) _
          (give-Keeps IsQuiet _)
          (chain-Keeps IsQuiet _ _ (response-Keeps Quiet false (λ l log h. h))
            (λ c. give-Keeps IsQuiet _)))))

pub envelope_pipeline-Keeps : (commands : Bytes) → Keeps IsQuiet (envelope_pipeline commands)
unfolding envelope_pipeline
envelope_pipeline-Keeps commands =
    then-Keeps IsQuiet _ _ (write-Keeps Quiet (command commands) (λ log h. h)) (
      chain-Keeps IsQuiet _ _ pipeline_codes-Keeps (λ replies.
        then-Keeps IsQuiet _ _ (λ w. ensure-Keeps IsQuiet _ _ w) (give-Keeps IsQuiet replies)))
