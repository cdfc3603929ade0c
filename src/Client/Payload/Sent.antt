-- ===== src/Client/Payload/Sent.antt =====
-- What has been read, decoded and written by the loop of `send_body`.
use rustymail.Base.{
  ◌+◌, ◌≡◌, refl, sym, ap, subst, ◌∙◌, Bool, true, ◌&&◌, if◌then◌else◌, List, [], ◌∷◌, ◌++◌,
  append_assoc, append-nil, Option, none, some, arith, length, length-append, All, All-append, leb,
}
use rustymail.Base.Try.{good}
use rustymail.Bytes.{Bytes, is_empty}
use rustymail.Framing.{LineDecoder}
use rustymail.Framing.Drive.Frames.{concat, IsFrame, IsOpen, feed_chunk-Drained}
use rustymail.Client.{Message, content}
use rustymail.Client.Wire.Steps.{
  give-good, fail-good, from_try-good, write-good, chain-good, then-good, ensure-good,
}
use rustymail.Client.Wire.{Act, from_try, ◌>>=◌, ◌>>◌, give, ensure, write, Wire, Event, body}
use rustymail.Client.Payload.{Sending, Reading, send_frame, send_chunks, fed_to, fresh, advance}
use rustymail.Client.Payload.Frames.{
  kept, StartsWith, stuffed, kept-append, concat-append, stuffed-append, all_sent,
}

-- The file up to its end or an error.
abbrev pub stored : List (Option Bytes) → Bytes
stored [] = []
stored (none ∷ reads) = []
stored (some c ∷ reads) = if is_empty c then [] else c ++ stored reads

-- The bytes of the message that have been written, in order.
abbrev pub body_of : List Event → Bytes
body_of [] = []
body_of (body b ∷ log) = body_of log ++ b
body_of (_ ∷ log) = body_of log

-- Of `source`, whole frames have been passed on and a part of a line is in the decoder; what has been
-- written beyond `before` is the frames to keep, dot-stuffed.
pub record Sent (m : Message) (before source : Bytes) (r : Reading) (log : List Event)
    : Type 0 where
  pub frames : List Bytes
  pub split : source ≡ concat frames ++ r.decoder.buffer
  pub counted : r.total ≡ length source
  pub fit : All (IsFrame 1000) frames
  pub starts : StartsWith m true frames
  pub first : r.sending.first ≡ is_empty frames
  pub headed : is_empty frames ≡ true → r.sending.headers ≡ true
  pub written : body_of log ≡ before ++ stuffed (kept m true frames)
  pub ends_open : IsOpen 1000 r.decoder

StartsWith-append :
    (m : Message) (xs ys : List Bytes)
    → StartsWith m true xs
    → StartsWith m (is_empty xs) ys
    → StartsWith m true (xs ++ ys)
StartsWith-append m [] ys s t = t
StartsWith-append m (x ∷ xs) ys s t = s

is_empty-append : (xs ys : List Bytes) → is_empty (xs ++ ys) ≡ (is_empty xs && is_empty ys)
is_empty-append [] ys = refl
is_empty-append (x ∷ xs) ys = refl

still_headed :
    (xs ys : List Bytes) (before after : Bool)
    → (is_empty xs ≡ true → before ≡ true)
    → (is_empty ys ≡ true → after ≡ before)
    → is_empty (xs ++ ys) ≡ true
    → after ≡ true
still_headed [] ys before after x y e = y e ∙ x refl
still_headed (z ∷ xs) ys before after x y e = ground arith

pub chunk-Sent :
    (m : Message) (before source : Bytes) (r : Reading) (log : List Event) (chunk : Bytes)
    (fed : LineDecoder × Sending)
    → fed_to m r chunk ≡ good fed
    → Sent m before source r log
    → Sent m before (source ++ chunk) (advance r chunk fed) (body fed.1.output ∷ log)
chunk-Sent m before source r log chunk fed h s =
    let d =
      feed_chunk-Drained (send_frame m) content 1000 r.decoder (fresh r.sending) chunk s.ends_open
        h in
    let (first, output, starts, headed) = all_sent m d.frames (fresh r.sending) d.steps in
    record {
      frames = s.frames ++ d.frames;
      split =
          ap (λ (b : Bytes). b ++ chunk) s.split
          ∙ append_assoc (concat s.frames) r.decoder.buffer chunk
          ∙ ap (λ (b : Bytes). concat s.frames ++ b) d.split
          ∙ sym (append_assoc (concat s.frames) (concat d.frames) fed.0.buffer)
          ∙ ap (λ (b : Bytes). b ++ fed.0.buffer) (sym (concat-append s.frames d.frames));
      counted = omega (arith, s.counted, length-append source chunk);
      fit = All-append (IsFrame 1000) s.frames d.frames s.fit d.fit;
      starts =
          StartsWith-append m s.frames d.frames s.starts
            (subst (λ (b : Bool). StartsWith m b d.frames) s.first starts);
      first = first ∙ rw s.first (sym (is_empty-append s.frames d.frames));
      headed = still_headed s.frames d.frames r.sending.headers fed.1.headers s.headed headed;
      written =
          ap (λ (b : Bytes). b ++ fed.1.output) s.written
          ∙ append_assoc before (stuffed (kept m true s.frames)) fed.1.output
          ∙ ap (λ (b : Bytes). before ++ b)
              (ap (λ (b : Bytes). stuffed (kept m true s.frames) ++ b)
                  (output ∙ ap (λ (b : Bool). stuffed (kept m b d.frames)) s.first)
                ∙ sym (stuffed-append (kept m true s.frames) (kept m (is_empty s.frames) d.frames))
                ∙ ap stuffed (sym (kept-append m s.frames d.frames)));
      ends_open = d.ends_open;
    }

ended :
    (m : Message) (before source : Bytes) (r : Reading) (w : Wire) {w' : Wire} {r' : Reading}
    → give r w ≡ (w', good r')
    → Sent m before source r w.log
    → Sent m before (source ++ []) r' w'.log
ended m before source r w {w'} {r'} h s =
    let (same_reading, same_wire) = give-good r w h in
    rw (append-nil source) (
      subst (λ (u : Wire). Sent m before source r' u.log) same_wire
        (subst (λ (q : Reading). Sent m before source q w.log) same_reading s))

pub send_chunks-Sent :
    (m : Message) (before source : Bytes) (reads : List (Option Bytes)) (r : Reading) (w : Wire)
    {w' : Wire} {r' : Reading}
    → send_chunks m reads r w ≡ (w', good r')
    → Sent m before source r w.log
    → Sent m before (source ++ stored reads) r' w'.log
unfolding send_chunks
send_chunks-Sent m before source [] r w h s = ended m before source r w h s
send_chunks-Sent m before source (none ∷ reads) r w h s = fail-good content w h
send_chunks-Sent m before source (some [] ∷ reads) r w h s = ended m before source r w h s
send_chunks-Sent m before source (some (c ∷ cs) ∷ reads) r w {w'} {r'} h s =
    let chunk : Bytes = c ∷ cs in
    let go : LineDecoder × Sending → Act Reading =
      λ fed. send_chunks m reads (advance r chunk fed) in
    let put : LineDecoder × Sending → Act Reading = λ fed. (write (body fed.1.output) >> go fed) in
    let fits = leb (r.total + length chunk) m.stored_size in
    let (w1, ensured, h1) =
      then-good (ensure fits content) (from_try (fed_to m r chunk) >>= put) w h in
    let (w2, fed, taken, h2) = chain-good (from_try (fed_to m r chunk)) put w1 h1 in
    let (w3, wrote, h3) = then-good (write (body fed.1.output)) (go fed) w2 h2 in
    let (accepted, same) = from_try-good (fed_to m r chunk) w1 taken in
    let logged : body fed.1.output ∷ w.log ≡ w3.log =
      ap (◌∷◌ (body fed.1.output))
        (ap (λ (u : Wire). u.log) ((ensure-good fits content w ensured).1 ∙ same))
      ∙ write-good (body fed.1.output) w2 wrote in
    rw (← append_assoc source chunk (stored reads)) (
      send_chunks-Sent m before (source ++ chunk) reads (advance r chunk fed) w3 h3 (
        subst (Sent m before (source ++ chunk) (advance r chunk fed)) logged
          (chunk-Sent m before source r w.log chunk fed accepted s)))
