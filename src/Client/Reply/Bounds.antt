-- ===== src/Client/Reply/Bounds.antt =====
-- What `response` reads and returns.
use rustymail.Base.{
  ℕ, zero, suc, ◌+◌, ◌≡◌, sym, ap, subst, Bool, true, false, List, ◌∷◌, Option, none, some, arith,
  length, ◌==◌, if◌then◌else◌,
}
use rustymail.Base.Try.{Try, good, bad}
use rustymail.Bytes.{Bytes}
use rustymail.Client.{Failure, connection, Capabilities, default_capabilities, Response}
use rustymail.Client.Wire.{
  ensure, fail, from_try, ◌>>=◌, ◌>>◌, Wire, Act, Event, received, line, found_on, Found, line_loop,
  chunks_of, give,
}
use rustymail.Framing.{new}
use rustymail.Client.Wire.Steps.{
  Keeps, then-Keeps, give-Keeps, fail-Keeps, from_try-Keeps, chain-Keeps, ensure-Keeps, if_Keeps,
  chain-good, give-good, fail-good,
}
use rustymail.Client.Reply.{present, byte_at, number_of, reply, response_from, response}

ensured-good {ℓ} :
    {T : Type ℓ} (b : Bool) (e : Failure) (next : Act T) (w : Wire) {w' : Wire} {t : T}
    → (ensure b e >> next) w ≡ (w', good t)
    → next w ≡ (w', good t)
unfolding ◌>>◌ ensure give fail
ensured-good true e next w h = h
ensured-good false e next w h = ground arith

tried-good {ℓ κ} :
    {T : Type ℓ} {U : Type κ} (r : Try Failure T) (next : T → Act U) (w : Wire) {w' : Wire} {u : U}
    → (from_try r >>= next) w ≡ (w', good u)
    → (t : T) × (next t w ≡ (w', good u))
unfolding ◌>>=◌ from_try
tried-good (bad e) next w h = ground arith
tried-good (good t) next w h = (t, h)

-- The latest line of the log has this code, and what stands before it has the property.
pub record Answered (P : List Event → Type 0) (code : ℕ) (log : List Event) : Type 0 where
  pub last : Bytes
  pub earlier : List Event
  pub latest : log ≡ received last ∷ earlier
  pub says : number_of last ≡ code
  pub behind : P earlier

module _ (P : List Event → Type 0)
    (step : (l : Bytes) (log : List Event) → P log → P (received l ∷ log)) where
  abbrev OnLog : Wire → Type 0
  OnLog w = P w.log

  found_on-OnLog : (w : Wire) (f : Found) → P w.log → P (found_on w f).0.log
  found_on-OnLog w (bad e) h = h
  found_on-OnLog w (good none) h = h
  found_on-OnLog w (good (some (l, left, chunks))) h = step l w.log h

  line-OnLog : (limit : ℕ) → Keeps OnLog (line limit)
  unfolding line
  line-OnLog limit w h = found_on-OnLog w (line_loop (new limit) (chunks_of w)) h

  present-OnLog : (o : Option Bytes) → Keeps OnLog (present o)
  present-OnLog none = fail-Keeps OnLog _ connection
  present-OnLog (some l) = give-Keeps OnLog l

  response_from-OnLog :
      (rounds index : ℕ) (capture : Bool) (code : Option ℕ) (total : ℕ) (c : Capabilities)
      → Keeps OnLog (response_from rounds index capture code total c)
  unfolding response_from
  response_from-OnLog zero index capture code total c = fail-Keeps OnLog _ connection
  response_from-OnLog (suc rounds) index capture code total c =
      let L = OnLog in
      chain-Keeps L _ _ (line-OnLog 512) (λ read. chain-Keeps L _ _ (present-OnLog read) (λ l.
        then-Keeps L _ _ (ensure-Keeps L _ _) (
          then-Keeps L _ _ (ensure-Keeps L _ _) (
            then-Keeps L _ _ (ensure-Keeps L _ _) (
              chain-Keeps L _ _ (from_try-Keeps L _) (λ noted. if_Keeps L _ _ _ (give-Keeps L _) (
                response_from-OnLog rounds (index + 1) capture (some (number_of l))
                  (total + length l + 2) noted)))))))

  -- Reading a reply writes nothing: the log has only received lines more.
  pub response-OnLog : (capture : Bool) → Keeps OnLog (response capture)
  unfolding response
  response-OnLog capture = response_from-OnLog 64 0 capture none 0 default_capabilities

  found_on-good :
      (w : Wire) (f : Found) {w' : Wire} {l : Bytes}
      → found_on w f ≡ (w', good (some l))
      → w'.log ≡ received l ∷ w.log
  found_on-good w (bad e) h = ground arith
  found_on-good w (good none) h = ground arith
  found_on-good w (good (some (l, left, chunks))) h = ground arith

  line-present-good :
      (w w1 : Wire) (read : Option Bytes) {w' : Wire} {l : Bytes}
      → line 512 w ≡ (w1, good read)
      → present read w1 ≡ (w', good l)
      → w'.log ≡ received l ∷ w.log
  unfolding line
  line-present-good w w1 none h k = fail-good connection w1 k
  line-present-good w w1 (some b) {w'} {l} h k =
      let (same, here) = give-good b w1 k in
      subst (λ (x : Wire). x.log ≡ received l ∷ w.log) here
        (subst (λ (x : Bytes). w1.log ≡ received x ∷ w.log) same
          (found_on-good w (line_loop (new 512) (chunks_of w)) h))

  last_line :
      (ends : Bool) (l : Bytes) (noted : Capabilities) (w : Wire) (before : List Event)
      (next : Act Response) {w' : Wire} {r : Response}
      → w.log ≡ received l ∷ before
      → P before
      → (P w.log → next w ≡ (w', good r) → Answered P r.code w'.log)
      → (if ends then give (reply (number_of l) noted) else next) w ≡ (w', good r)
      → Answered P r.code w'.log
  last_line true l noted w before next log p again h =
      let (is_reply, here) = give-good (reply (number_of l) noted) w h in
      record {
        last = l;
        earlier = before;
        latest = subst (λ (x : Wire). x.log ≡ received l ∷ before) here log;
        says = ap (λ (x : Response). x.code) is_reply;
        behind = p;
      }
  last_line false l noted w before next log p again h =
      again (subst P (sym log) (step l before p)) h

  response_from-Answered :
      (rounds index : ℕ) (capture : Bool) (code : Option ℕ) (total : ℕ) (c : Capabilities)
      (w : Wire) {w' : Wire} {r : Response}
      → P w.log
      → response_from rounds index capture code total c w ≡ (w', good r)
      → Answered P r.code w'.log
  unfolding response_from
  response_from-Answered zero index capture code total c w p h = fail-good connection w h
  response_from-Answered (suc rounds) index capture code total c w {w'} {r} p h =
      let (w1, read, h1, k1) = chain-good (line 512) _ w h in
      let (w2, l, h2, k2) = chain-good (present read) _ w1 k1 in
      let log : w2.log ≡ received l ∷ w.log = line-present-good w w1 read h1 h2 in
      let checked =
        ensured-good _ connection _ w2
          (ensured-good _ connection _ w2 (ensured-good _ connection _ w2 k2)) in
      let (noted, k6) = tried-good _ _ w2 checked in
      last_line (byte_at 3 l b' ' == b' ') l noted w2 w.log
        (response_from rounds (index + 1) capture (some (number_of l)) (total + length l + 2) noted)
        log p
        (λ q k.
          response_from-Answered rounds (index + 1) capture (some (number_of l))
            (total + length l + 2) noted w2 q k)
        k6

  -- A reply that has been read is the latest line received.
  pub response-Answered :
      (capture : Bool) (w : Wire) {w' : Wire} {r : Response}
      → P w.log
      → response capture w ≡ (w', good r)
      → Answered P r.code w'.log
  unfolding response
  response-Answered capture w p h =
      response_from-Answered 64 0 capture none 0 default_capabilities w p h
