-- ===== src/Client/Attempt.antt =====
-- crates/client/src/smtp.rs: `try_attempt` and `attempt`, the conversation for one message and one
-- recipient. The success of `before_body` is an argument.
pub mod Quiet
pub mod Heard
pub mod Fits
pub mod Outcome
pub mod Result
mod Tests
use rustymail.Base.{
  ℕ, zero, suc, ◌-◌, ◌%◌, ◌/◌, ◌+◌, Bool, true, false, not, ◌&&◌, ◌||◌, List, [], ◌∷◌, ◌++◌, Option,
  none, some, ltb, leb, within, ◌==◌, length, is_some, if◌then◌else◌,
}
use rustymail.Base.Try.{Try, good, bad}
use rustymail.Bytes.{Bytes, codes, is_empty}
use rustymail.Address.{Address}
use rustymail.Framing.{crlf}
use rustymail.Client.{
  AttemptResult, delivered, connection_lost, hold, deferred, Failure, connection, setup, content,
  Message, Capabilities, Response, SmtpClient, rejected,
}
use rustymail.Client.Wire.{
  Wire, Act, ◌>>=◌, ◌>>◌, give, fail, ensure, from_try, write, note, upgrade, command, body,
  final_dot, marked,
}
use rustymail.Client.Reply.{response}
use rustymail.Client.Payload.{send_body, is_seven_bit}

-- `command`
unfoldable pub exchange : Bytes → Bool → Act Response
unfolding write response
exchange text capture = do write (command text); response capture

-- the digits of `{}` for a number, on as many rounds as a `u64` has digits
abbrev pub digits : ℕ → ℕ → Bytes → Bytes
digits zero n acc = acc
digits (suc rounds) n acc =
    let rest = digits rounds (n / 10) ((b'0' + n % 10) ∷ acc) in if n == 0 then acc else rest

unfoldable pub shown : ℕ → Bytes
shown n = if n == 0 then codes "0" else digits 20 n []

unfoldable pub ehlo_line : SmtpClient → Bytes
ehlo_line c = codes "EHLO " ++ (c.greeting ++ crlf)

-- the greeting of the server and the first EHLO
unfoldable pub greet : SmtpClient → Act Response
unfolding exchange response ehlo_line
greet c = do
  banner ← response false
  ensure (banner.code == 220) setup
  ehlo ← exchange (ehlo_line c) true
  ensure (ehlo.code == 250) setup
  give ehlo

-- STARTTLS and the second EHLO
unfoldable pub start_tls : SmtpClient → Response → Act Response
unfolding exchange upgrade ehlo_line
start_tls c ehlo = do
  ensure ehlo.capabilities.starttls setup
  ready ← exchange (codes "STARTTLS" ++ crlf) false
  ensure (ready.code == 220) setup
  upgrade c.tls
  again ← exchange (ehlo_line c) true
  ensure (again.code == 250) setup
  give again

-- the second line of AUTH, where the server asks for it
unfoldable pub answer : Bytes → ℕ → Act ℕ
unfolding exchange
answer token code =
    if code == 334 then (do r ← exchange (token ++ crlf) false; give r.code) else give code

unfoldable pub authorize : SmtpClient → Option Bytes → Response → Act (Unit {0})
unfolding exchange answer
authorize c none ehlo = give tt
authorize c (some token) ehlo = do
  ensure (ehlo.capabilities.plain && c.tls) setup
  first ← exchange (codes "AUTH PLAIN " ++ (token ++ crlf)) false
  code ← answer token first.code
  ensure (code == 235) setup

-- the capabilities under which the envelope is sent
unfoldable pub connect : SmtpClient → Act Response
unfolding upgrade greet start_tls authorize
connect c = do
  (if c.tls && not c.starttls then upgrade c.tls else give tt)
  first ← greet c
  ehlo ← (if c.starttls then start_tls c first else give first)
  authorize c c.authorization ehlo
  give ehlo

-- `ehlo.capabilities.size.flatten().is_some_and(|max| size > max)`
abbrev pub too_large : Option (Option ℕ) → ℕ → Bool
too_large none size = false
too_large (some none) size = false
too_large (some (some max)) size = ltb max size

abbrev pub sender_of : Option Address → Bytes
sender_of none = []
sender_of (some a) = a.text

unfoldable pub mail_line : Message → Capabilities → ℕ → Bytes
unfolding shown
mail_line m c size =
    codes "MAIL FROM:<"
    ++ (sender_of m.sender
        ++ (codes ">"
            ++ ((if is_some c.size then codes " SIZE=" ++ shown size else [])
                ++ ((if c.eight_bit
                      then (if is_seven_bit m.body
                          then codes " BODY=7BIT"
                          else codes " BODY=8BITMIME")
                      else [])
                    ++ crlf))))

unfoldable pub rcpt_to : Message → Bytes
rcpt_to m = codes "RCPT TO:<" ++ (m.recipient.text ++ (codes ">" ++ crlf))

abbrev pub data_line : Bytes
data_line = codes "DATA" ++ crlf

-- the replies to the group of commands, none behind a 421
unfoldable pub pipeline_codes : Act (ℕ × ℕ × ℕ)
unfolding response
pipeline_codes = do
  a ← response false
  (if a.code == 421 then give (a.code, 0, 0) else do
    b ← response false
    (if b.code == 421
        then give (a.code, b.code, 0)
        else do c ← response false; give (a.code, b.code, c.code)))

-- what has arrived behind the replies; the read half has the one buffer, so the second test of
-- `wire` never finds anything
abbrev pub nothing_more : Act (Unit {0})
nothing_more w = ensure (is_empty w.buffer) connection w

unfoldable pub envelope_pipeline : Bytes → Act (ℕ × ℕ × ℕ)
unfolding write pipeline_codes
envelope_pipeline commands = do
  write (command commands)
  replies ← pipeline_codes
  nothing_more
  give replies

-- a reply that is not a success ends the attempt
unfoldable pub unless_rejected : ℕ → Act AttemptResult → Act AttemptResult
unless_rejected code next = if within 200 299 code then next else from_try (rejected code)

abbrev pub mark : Bool → Act (Unit {0})
mark marks = if marks then note marked else fail connection

-- from the reply to DATA on
unfoldable pub transfer : Bool → Message → List (Option Bytes) → ℕ → Act AttemptResult
unfolding send_body write response unless_rejected
transfer marks m reads code =
    if code == 354
    then (do
      mark marks
      send_body m reads
      write final_dot
      last ← response false
      unless_rejected last.code (give (delivered last.code)))
    else from_try (rejected code)

-- from the capabilities on: the checks of the message, the envelope and the transfer
unfoldable pub deliver : Bool → Message → List (Option Bytes) → Capabilities → Act AttemptResult
unfolding mail_line rcpt_to exchange envelope_pipeline unless_rejected transfer write response
deliver marks m reads c = do
  ensure (leb (length m.omit_prefix) m.stored_size) content
  let size = m.stored_size - length m.omit_prefix
  ensure (not (not (is_seven_bit m.body) && not c.eight_bit || too_large c.size size)) content
  (if c.pipelining
      then (do
        replies ← envelope_pipeline (mail_line m c size ++ (rcpt_to m ++ data_line))
        unless_rejected replies.0 (unless_rejected replies.1 (transfer marks m reads replies.2)))
      else (do
        first ← exchange (mail_line m c size) false
        unless_rejected first.code (do
          second ← exchange (rcpt_to m) false
          unless_rejected second.code
              (do third ← exchange data_line false; transfer marks m reads third.code))))

unfoldable pub try_attempt : SmtpClient → Bool → Message → List (Option Bytes) → Act AttemptResult
unfolding connect deliver
try_attempt client marks m reads = do ehlo ← connect client; deliver marks m reads ehlo.capabilities

-- the match of `attempt`
unfoldable pub settle : Try Failure AttemptResult → AttemptResult
settle (good result) = result
settle (bad connection) = connection_lost
settle (bad setup) = deferred
settle (bad content) = hold

unfoldable pub attempt :
    SmtpClient → Bool → Message → List (Option Bytes) → Wire → Wire × AttemptResult
unfolding try_attempt settle
attempt client marks m reads w =
    let (left, result) = try_attempt client marks m reads w in (left, settle result)
