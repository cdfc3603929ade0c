-- ===== src/Client/Payload.antt =====
-- crates/client/src/smtp.rs: `send_body`. The results of `pump.read()` are a list: a chunk, or `none` for
-- an error; an empty chunk, or no further result, is the end of the file.
pub mod Frames
pub mod Sent
pub mod Whole
use rustymail.Base.{
  ℕ, ◌+◌, Bool, true, false, not, ◌&&◌, ◌||◌, List, [], ◌∷◌, ◌++◌, Option, none, some, leb, ◌==◌,
  length, all, if◌then◌else◌,
}
use rustymail.Base.Try.{Try, good, bad}
use rustymail.Bytes.{Bytes, is_ascii, is_empty, equal}
use rustymail.Framing.{LineDecoder, new, stuff, crlf, buffered_bytes}
use rustymail.Framing.Drive.{feed_chunk}
use rustymail.Command.{Body, seven_bit, eight_bit_mime}
use rustymail.Client.{Failure, content, Message}
use rustymail.Client.Wire.{Wire, Act, ◌>>=◌, ◌>>◌, give, fail, ensure, write, body, from_try}

abbrev pub is_seven_bit : Body → Bool
is_seven_bit seven_bit = true
is_seven_bit eight_bit_mime = false

-- `first`, `headers` and `output`
pub record Sending : Type 0 where
  pub first : Bool
  pub headers : Bool
  pub output : Bytes

-- the first frame, where there is a prefix to omit
abbrev pub is_prefix : Message → Sending → Bool
is_prefix m s = s.first && not (is_empty m.omit_prefix)

-- what the loop does with a whole frame
unfoldable pub send_frame : Message → Sending → Bytes → Try Failure Sending
unfolding equal stuff
send_frame m s frame =
    if (s.headers || is_seven_bit m.body) && not (all is_ascii frame)
    then bad content
    else if is_prefix m s && not (equal frame m.omit_prefix)
    then bad content
    else good (record {
      first = false;
      headers = s.headers && not (equal frame crlf);
      output = if is_prefix m s then s.output else s.output ++ stuff frame;
    })

-- `decoder`, `total` and the state
pub record Reading : Type 0 where
  pub decoder : LineDecoder
  pub total : ℕ
  pub sending : Sending

abbrev pub fresh : Sending → Sending
fresh s = record s { output = [] }

abbrev pub fed_to : Message → Reading → Bytes → Try Failure (LineDecoder × Sending)
fed_to m r chunk = feed_chunk (send_frame m) content r.decoder (fresh r.sending) chunk

-- what a chunk leaves behind it
abbrev pub advance : Reading → Bytes → LineDecoder × Sending → Reading
advance r chunk fed = record { decoder = fed.0; total = r.total + length chunk; sending = fed.1 }

unfoldable pub send_chunks : Message → List (Option Bytes) → Reading → Act Reading
unfolding write
send_chunks m [] r = give r
send_chunks m (none ∷ reads) r = fail content
send_chunks m (some chunk ∷ reads) r = if is_empty chunk then give r else do
  ensure (leb (r.total + length chunk) m.stored_size) content
  fed ← from_try (fed_to m r chunk)
  write (body fed.1.output)
  send_chunks m reads (advance r chunk fed)

abbrev pub start : Reading
start = record {
  decoder = new 1000;
  total = 0;
  sending = record { first = true; headers = true; output = [] };
}

unfoldable pub send_body : Message → List (Option Bytes) → Act (Unit {0})
unfolding send_chunks buffered_bytes
send_body m reads = do
  r ← send_chunks m reads start
  ensure (r.total == m.stored_size && buffered_bytes r.decoder == 0 && not r.sending.headers)
      content
