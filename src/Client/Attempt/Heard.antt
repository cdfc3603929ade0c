-- ===== src/Client/Attempt/Heard.antt =====
-- The codes that an attempt acts on are those of lines that it has received.
use rustymail.Base.{
  ℕ, ◌≡◌, refl, ap, ◌∙◌, subst, Bool, true, false, ◌||◌, ◌==◌, within, List, [], ◌∷◌, arith,
  if◌then◌else◌,
}
use rustymail.Base.Try.{Try, good}
use rustymail.Bytes.{Bytes, is_empty}
use rustymail.Client.{Failure, Response, connection}
use rustymail.Client.Wire.{Wire, Event, received, command, write, give, ◌>>=◌}
use rustymail.Client.Wire.Steps.{chain-good, then-good, give-good, ensure-good}
use rustymail.Client.Reply.{response, number_of}
use rustymail.Client.Reply.Bounds.{Answered, response-Answered, response-OnLog}
use rustymail.Client.Attempt.{exchange, pipeline_codes, envelope_pipeline, nothing_more}

-- A line with this code has been received.
abbrev pub has_reply : ℕ → List Event → Bool
has_reply code [] = false
has_reply code (received l ∷ log) = number_of l == code || has_reply code log
has_reply code (_ ∷ log) = has_reply code log

pub Answered-has_reply :
    (P : List Event → Type 0) (code : ℕ) (log : List Event)
    → Answered P code log
    → has_reply code log ≡ true
Answered-has_reply P code log a = rw (a.latest) (ground (arith, a.says))

abbrev pub Heard : ℕ → Wire → Type 0
Heard code w = has_reply code w.log ≡ true

response-Heard :
    (capture : Bool) (w : Wire) {w' : Wire} {r : Response}
    → response capture w ≡ (w', good r)
    → Heard r.code w'
response-Heard capture w {w'} {r} h =
    Answered-has_reply (λ log. Unit {0}) r.code w'.log
      (response-Answered (λ log. Unit {0}) (λ l log _. tt) capture w tt h)

pub exchange-Heard :
    (text : Bytes) (capture : Bool) (w : Wire) {w' : Wire} {r : Response}
    → exchange text capture w ≡ (w', good r)
    → Heard r.code w'
unfolding exchange
exchange-Heard text capture w h =
    let (w1, written, k) = then-good (write (command text)) (response capture) w h in
    response-Heard capture w1 k

-- a reply more
response-still :
    (code : ℕ) (w : Wire) {w' : Wire} {r : Response}
    → response false w ≡ (w', good r)
    → Heard code w
    → Heard code w'
response-still code w {w'} {r} h heard =
    subst (λ (x : Wire). Heard code x) (ap (λ (p : Wire × Try Failure Response). p.0) h)
      (response-OnLog (λ log. has_reply code log ≡ true) (λ l log k. ground (arith, k)) false w
        heard)

-- The replies to the group of commands that count: those behind successes.
pub record HeardAll (codes : ℕ × ℕ × ℕ) (w : Wire) : Type 0 where
  pub first : Heard codes.0 w
  pub second : within 200 299 codes.0 ≡ true → Heard codes.1 w
  pub third : within 200 299 codes.0 ≡ true → within 200 299 codes.1 ≡ true → Heard codes.2 w

third_reply :
    (a b : ℕ) (w : Wire) (stops : Bool) {w' : Wire} {codes : ℕ × ℕ × ℕ}
    → Heard a w
    → Heard b w
    → (b == 421) ≡ stops
    → (if stops then give (a, b, 0) else (do c ← response false; give (a, b, c.code))) w
      ≡ (w', good codes)
    → HeardAll codes w'
third_reply a b w true {w'} {codes} ha hb e h =
    let (same, here) = give-good (a, b, 0) w h in
    subst (λ (c : ℕ × ℕ × ℕ). HeardAll c w') same
      (subst (λ (x : Wire). HeardAll (a, b, 0) x) here
        (record { first = ha; second = λ _. hb; third = λ _ k. ground arith }))
third_reply a b w false {w'} {codes} ha hb e h =
    let (w1, c, h1, k1) = chain-good (response false) _ w h in
    let (same, here) = give-good (a, b, c.code) w1 k1 in
    subst (λ (x : ℕ × ℕ × ℕ). HeardAll x w') same
      (subst (λ (x : Wire). HeardAll (a, b, c.code) x) here
        (record {
          first = response-still a w h1 ha;
          second = λ _. response-still b w h1 hb;
          third = λ _ _. response-Heard false w h1;
        }))

second_reply :
    (a : ℕ) (w : Wire) (stops : Bool) {w' : Wire} {codes : ℕ × ℕ × ℕ}
    → Heard a w
    → (a == 421) ≡ stops
    → (if stops then give (a, 0, 0) else (do
      b ← response false
      (if b.code == 421
          then give (a, b.code, 0)
          else (do c ← response false; give (a, b.code, c.code)))))
        w
      ≡ (w', good codes)
    → HeardAll codes w'
second_reply a w true {w'} {codes} ha e h =
    let (same, here) = give-good (a, 0, 0) w h in
    subst (λ (c : ℕ × ℕ × ℕ). HeardAll c w') same
      (subst (λ (x : Wire). HeardAll (a, 0, 0) x) here
        (record { first = ha; second = λ k. ground arith; third = λ k _. ground arith }))
second_reply a w false ha e h =
    let (w1, b, h1, k1) = chain-good (response false) _ w h in
    third_reply a b.code w1 (b.code == 421) (response-still a w h1 ha) (response-Heard false w h1)
      refl k1

pipeline_codes-HeardAll :
    (w : Wire) {w' : Wire} {codes : ℕ × ℕ × ℕ}
    → pipeline_codes w ≡ (w', good codes)
    → HeardAll codes w'
unfolding pipeline_codes
pipeline_codes-HeardAll w h =
    let (w1, a, h1, k1) = chain-good (response false) _ w h in
    second_reply a.code w1 (a.code == 421) (response-Heard false w h1) refl k1

pub envelope_pipeline-HeardAll :
    (commands : Bytes) (w : Wire) {w' : Wire} {codes : ℕ × ℕ × ℕ}
    → envelope_pipeline commands w ≡ (w', good codes)
    → HeardAll codes w'
unfolding envelope_pipeline
envelope_pipeline-HeardAll commands w {w'} {codes} h =
    let (w1, written, k1) = then-good (write (command commands)) _ w h in
    let (w2, replies, h2, k2) = chain-good pipeline_codes _ w1 k1 in
    let (w3, h3, k3) = then-good nothing_more _ w2 k2 in
    let (same, here) = give-good replies w3 k3 in
    subst (λ (c : ℕ × ℕ × ℕ). HeardAll c w') same
      (subst (λ (x : Wire). HeardAll replies x)
        ((ensure-good (is_empty w2.buffer) connection w2 h3).1 ∙ here)
        (pipeline_codes-HeardAll w1 h2))
