-- ===== src/Client/Payload/Whole.antt =====
-- A body that has been sent whole, and what the server makes of it.
use rustymail.Base.{
  ◌≡◌, refl, sym, ap, subst, ◌∙◌, true, false, not, ◌&&◌, List, [], ◌∷◌, ◌++◌, append-nil, Option,
  some, arith, Bool-cases, inl, inr, length, All, ◌==◌,
}
use rustymail.Base.Try.{good}
use rustymail.Bytes.{Bytes, is_empty}
use rustymail.Framing.Data.{decode-stuff, ends_with_crlf-append}
use rustymail.Framing.{ok, decode_data_frame, stuff, buffered_bytes}
use rustymail.Framing.Drive.Frames.{concat, IsFrame}
use rustymail.Framing.Grammar.{new-IsFramed}
use rustymail.Client.{Message, content}
use rustymail.Client.Wire.Steps.{chain-good, ensure-good}
use rustymail.Client.Wire.{Act, ensure, Wire, Event}
use rustymail.Client.Payload.{Reading, send_chunks, send_body, start}
use rustymail.Client.Payload.Frames.{kept, StartsWith, stuffed}
use rustymail.Client.Payload.Sent.{stored, body_of, Sent, send_chunks-Sent}

start-Sent : (m : Message) (log : List Event) → Sent m (body_of log) [] start log
start-Sent m log = record {
  frames = [];
  split = refl;
  counted = refl;
  fit = tt;
  starts = tt;
  first = refl;
  headed = λ _. refl;
  written = sym (append-nil (body_of log));
  ends_open = (new-IsFramed 1000, refl, refl);
}

-- The file has been read to its end, and what has been written of it is its lines behind the prefix to
-- omit, each dot-stuffed so that the decoder of the server gives it back. A line is at most 1000 bytes
-- and has no CR and no LF but those that end it.
pub record IsWhole (m : Message) (source written : Bytes) : Type 0 where
  pub lines : List Bytes
  pub split : source ≡ m.omit_prefix ++ concat lines
  pub fit : All (IsFrame 1000) lines
  pub sized : length source ≡ m.stored_size
  pub stuffs : written ≡ stuffed lines
  pub decodes : All (λ l. decode_data_frame (stuff l) ≡ ok (some l)) lines

without_prefix :
    (m : Message) (frames : List Bytes)
    → is_empty frames ≡ false
    → StartsWith m true frames
    → concat frames ≡ m.omit_prefix ++ concat (kept m true frames)
without_prefix m [] e s = ground arith
without_prefix m (f ∷ frames) e s = elim (Bool-cases (is_empty m.omit_prefix)) [
  | inl none_given ↦
      rw none_given
        (ap (λ (b : Bytes). b ++ (f ++ concat frames)) (sym (empty m.omit_prefix none_given)))
  | inr given ↦ rw given (ap (λ (b : Bytes). b ++ concat frames) (s given))
]
  where
    empty : (b : Bytes) → is_empty b ≡ true → b ≡ []
    empty [] e = refl
    empty (x ∷ b) e = ground arith

frame-decodes : (f : Bytes) → IsFrame 1000 f → decode_data_frame (stuff f) ≡ ok (some f)
frame-decodes f (short, (t, text, e)) = decode-stuff f (rw e (ends_with_crlf-append t)) short

frames_decode :
    (frames : List Bytes)
    → All (IsFrame 1000) frames
    → All (λ l. decode_data_frame (stuff l) ≡ ok (some l)) frames
frames_decode [] h = tt
frames_decode (f ∷ frames) (h, rest) = (frame-decodes f h, frames_decode frames rest)

kept-All :
    (m : Message) (P : Bytes → Type 0) (frames : List Bytes)
    → All P frames
    → All P (kept m true frames)
kept-All m P [] h = tt
kept-All m P (f ∷ frames) h = elim (Bool-cases (is_empty m.omit_prefix)) [
  | inl e ↦ rw e h
  | inr e ↦ rw e h.1
]

Sent-IsWhole :
    (m : Message) (before source : Bytes) (r : Reading) (log : List Event)
    → Sent m before source r log
    → (r.total == m.stored_size && buffered_bytes r.decoder == 0 && not r.sending.headers) ≡ true
    → (written : Bytes) × (body_of log ≡ before ++ written) × IsWhole m source written
unfolding buffered_bytes
Sent-IsWhole m before source r log s h =
    let nothing_left : length r.decoder.buffer ≡ 0 = ground arith in
    let total : r.total ≡ m.stored_size = ground arith in
    let past_headers : r.sending.headers ≡ false = ground arith in
    let some_frame : is_empty s.frames ≡ false = ground (arith, s.headed) in
    (
      stuffed (kept m true s.frames),
      s.written,
      record {
        lines = kept m true s.frames;
        split =
            s.split
            ∙ rw (no_bytes r.decoder.buffer nothing_left) (append-nil (concat s.frames))
            ∙ without_prefix m s.frames some_frame s.starts;
        fit = kept-All m (IsFrame 1000) s.frames s.fit;
        sized = sym s.counted ∙ total;
        stuffs = refl;
        decodes = frames_decode (kept m true s.frames) (kept-All m (IsFrame 1000) s.frames s.fit);
      },
    )
  where
    no_bytes : (b : Bytes) → length b ≡ 0 → b ≡ []
    no_bytes [] e = refl
    no_bytes (x ∷ b) e = ground arith

-- A body that `send_body` reports as sent is the file, which has the size that the message says and
-- begins with the prefix to omit. What has been written is the file behind the prefix line by line, each
-- line of at most 1000 bytes with its only CR LF at its end, and dot-stuffed by itself; the server's
-- decoder of DATA gives each of these lines back and takes none for the end.
pub send_body-IsWhole :
    (m : Message) (reads : List (Option Bytes)) (w : Wire) {w' : Wire}
    → send_body m reads w ≡ (w', good tt)
    → (written : Bytes) × (body_of w'.log ≡ body_of w.log ++ written)
      × IsWhole m (stored reads) written
unfolding send_body
send_body-IsWhole m reads w {w'} h =
    let finish : Reading → Act (Unit {0}) = λ r.
      ensure (r.total == m.stored_size && buffered_bytes r.decoder == 0 && not r.sending.headers)
        content in
    let (w1, r, sent, checked) = chain-good (send_chunks m reads start) finish w h in
    let (holds, same) = ensure-good _ content w1 checked in
    let s = send_chunks-Sent m (body_of w.log) [] reads start w sent (start-Sent m w.log) in
    subst
      (λ (u : Wire).
        (written : Bytes) × (body_of u.log ≡ body_of w.log ++ written)
        × IsWhole m (stored reads) written)
      same (Sent-IsWhole m (body_of w.log) (stored reads) r w1.log s holds)
