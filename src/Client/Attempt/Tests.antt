-- ===== src/Client/Attempt/Tests.antt =====
-- A conversation with a server that takes a message of two lines behind a prefix.
use rustymail.Framing.Drive.{dispatch, feed_chunk}
use rustymail.Base.{◌≡◌, refl, true, false, List, [], ◌∷◌, ◌++◌, Option, none, some, length}
use rustymail.Base.Try.{good}
use rustymail.Bytes.{ends_with, Bytes, codes}
use rustymail.Address.{Address}
use rustymail.Framing.{feed_buffered, clear, feed_from}
use rustymail.Command.{seven_bit}
use rustymail.Client.{SmtpClient, Message, delivered, hold}
use rustymail.Client.Wire.{ensure, fail, from_try, give, note, ◌>>=◌, ◌>>◌, Wire}
use rustymail.Client.Payload.{send_frame, send_body}
use rustymail.Client.Payload.Sent.{body_of, stored}
use rustymail.Client.Payload.Whole.{IsWhole, send_body-IsWhole}
use rustymail.Base.{arith}
use rustymail.Framing.{new}
use rustymail.Framing.Drive.{drain, feed_chunk}
use rustymail.Framing.Drive.Rounds.{Loops, feed_chunk-rounds}
use rustymail.Client.{content}
use rustymail.Client.Payload.{send_frame, start}
use rustymail.Client.Attempt.{attempt}
use rustymail.Client.Attempt.Quiet.{dotted}
use rustymail.Client.Attempt.Fits.{IsComplete}
use rustymail.Client.Attempt.Result.{Says, attempt-Says}

abbrev client : SmtpClient
client = record { greeting = codes "me"; tls = false; starttls = false; authorization = none }

abbrev address : Address
address = record { text = codes "a@example.com" }

abbrev prefix : Bytes
prefix = codes "Return-Path: <>\r\n"

abbrev file : Bytes
file = prefix ++ codes "\r\n.x\r\n"

abbrev message : Message
message = record {
  sender = none;
  recipient = address;
  body = seven_bit;
  stored_size = length file;
  omit_prefix = prefix;
}

abbrev reads : List (Option Bytes)
reads = some (codes "Return-Path: <>\r\n\r") ∷ some (codes "\n.x\r\n") ∷ []

abbrev server : Wire
server = record {
  buffer = [];
  incoming =
      codes "220 hi\r\n"
      ∷ codes "250-mx\r\n250 SIZE\r\n"
      ∷ codes "250 ok\r\n"
      ∷ codes "250 ok\r\n"
      ∷ codes "354 go\r\n"
      ∷ codes "250 done\r\n"
      ∷ [];
  secured = none;
  writes_left = 20;
  log = [];
}

delivers : (attempt client true message reads server).1 ≡ delivered 250
unfolding attempt ◌>>=◌ ◌>>◌ give feed_from ends_with ensure from_try note feed_chunk dispatch
    send_frame clear
delivers = refl

sends_stuffed : body_of (attempt client true message reads server).0.log ≡ codes "\r\n..x\r\n"
unfolding attempt ◌>>=◌ ◌>>◌ give feed_from ends_with ensure from_try note feed_chunk dispatch
    send_frame clear
sends_stuffed = refl

-- the file is shorter than the message says
holds : (attempt client true message (some prefix ∷ []) server).1 ≡ hold
unfolding attempt ◌>>=◌ ◌>>◌ give feed_from ends_with ensure from_try note feed_chunk dispatch
    send_frame fail
holds = refl

is_sent : send_body message reads server ≡ ((send_body message reads server).0, good tt)
unfolding send_body ◌>>=◌ ◌>>◌ give feed_from ends_with ensure from_try feed_chunk dispatch
    send_frame clear feed_buffered
is_sent = refl

attempt-Says_example :
    let after = attempt client true message reads server in
    (dotted after.0.log ≡ true → IsComplete message reads after.0.log) × Says after.0.log after.1
attempt-Says_example = attempt-Says client true message reads server refl

send_body-IsWhole_example :
    (written : Bytes) × (body_of (send_body message reads server).0.log
      ≡ body_of server.log ++ written)
    × IsWhole message (stored reads) written
send_body-IsWhole_example = send_body-IsWhole message reads server is_sent

feed_chunk-rounds_example :
    Loops
      (send_frame message)
      content
      (new 1000)
      start.sending
      file
      (feed_chunk (send_frame message) content (new 1000) start.sending file)
    × (drain (send_frame message) content 100 (new 1000) start.sending file
        ≡ some (feed_chunk (send_frame message) content (new 1000) start.sending file))
feed_chunk-rounds_example =
    feed_chunk-rounds (send_frame message) content 100 (new 1000) start.sending file refl
      (omega arith)
