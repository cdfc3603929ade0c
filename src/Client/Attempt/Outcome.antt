-- ===== src/Client/Attempt/Outcome.antt =====
-- What the result of an attempt says about what has been written.
use rustymail.Base.{
  ℕ, zero, suc, ◌≡◌, refl, sym, ap, subst, ◌∙◌, Bool, true, false, ◌==◌, within, List, [], ◌∷◌,
  ◌++◌, Option, arith, Bool-cases, inl, inr,
}
use rustymail.Base.Try.{Try, good, bad}
use rustymail.Bytes.{Bytes}
use rustymail.Client.{
  Failure, connection, Message, Capabilities, SmtpClient, AttemptResult, delivered, rejected,
  Response,
}
use rustymail.Client.Wire.{
  Wire, Act, Event, body, final_dot, marked, ◌>>=◌, ◌>>◌, continue_with, write, note, give, fail,
  from_try, lasts, one_less,
}
use rustymail.Client.Wire.Steps.{Keeps, ensure-Keeps}
use rustymail.Client.Wire.Fails.{FailsIn}
use rustymail.Client.Reply.Failures.{IsConnection, response-Fails}
use rustymail.Client.Reply.{response}
use rustymail.Client.Reply.Bounds.{Answered, response-Answered}
use rustymail.Client.Attempt.Heard.{
  has_reply, Heard, exchange-Heard, HeardAll, envelope_pipeline-HeardAll, Answered-has_reply,
}
use rustymail.Client.Payload.{send_body}
use rustymail.Client.Payload.Sent.{body_of, stored}
use rustymail.Client.Payload.Whole.{IsWhole, send_body-IsWhole}
use rustymail.Client.Attempt.{
  exchange, envelope_pipeline, unless_rejected, mark, transfer, deliver, try_attempt,
}
use rustymail.Client.Attempt.Quiet.{
  dotted, is_marked, IsQuiet, response-Keeps, write-Keeps, exchange-Keeps, connect-Keeps,
  envelope_pipeline-Keeps,
}
use rustymail.Client.Attempt.Fits.{
  send_body-Keeps, IsComplete, IsBehindDot, Fits, Verdict, Safe, undotted, failed_quiet,
  rejected-Fits,
}

module _ (m : Message) (reads : List (Option Bytes)) where
  continued-Safe {ℓ} :
      {T : Type ℓ} (r : Wire × Try Failure T) (next : T → Act AttemptResult)
      → IsQuiet r.0
      → ((t : T) → Safe m reads (next t))
      → Verdict m reads (continue_with next r)
  continued-Safe (w, bad e) next q k = failed_quiet m reads w e q.0
  continued-Safe (w, good t) next q k = k t w q

  chain-Safe {ℓ} :
      {T : Type ℓ} (act : Act T) (next : T → Act AttemptResult)
      → Keeps IsQuiet act
      → ((t : T) → Safe m reads (next t))
      → Safe m reads (act >>= next)
  unfolding ◌>>=◌
  chain-Safe act next a k w q = continued-Safe (act w) next (a w q) k

  then-Safe :
      (act : Act (Unit {0})) (next : Act AttemptResult)
      → Keeps IsQuiet act
      → Safe m reads next
      → Safe m reads (act >> next)
  unfolding ◌>>◌
  then-Safe act next a k w q = continued-Safe (act w) (λ _. next) (a w q) (λ _. k)

  -- on a wire with a further property
  abbrev SafeIf : (Wire → Type 0) → Act AttemptResult → Type 0
  SafeIf Q act = (w : Wire) → IsQuiet w → Q w → Verdict m reads (act w)

  abbrev Hears : (Wire → Type 0) → ℕ → Type 0
  Hears Q code = (w : Wire) → Q w → has_reply code w.log ≡ true

  result-SafeIf {ℓ} :
      {T : Type ℓ} (Q : T → Wire → Type 0) (r : Wire × Try Failure T) (next : T → Act AttemptResult)
      → IsQuiet r.0
      → ((w1 : Wire) (t : T) → r ≡ (w1, good t) → Q t w1)
      → ((t : T) → SafeIf (Q t) (next t))
      → Verdict m reads (continue_with next r)
  result-SafeIf Q (w, bad e) next q a k = failed_quiet m reads w e q.0
  result-SafeIf Q (w, good t) next q a k = k t w q (a w t refl)

  result-Safe {ℓ} :
      {T : Type ℓ} (Q : T → Wire → Type 0) (act : Act T) (next : T → Act AttemptResult)
      → Keeps IsQuiet act
      → ((w w1 : Wire) (t : T) → act w ≡ (w1, good t) → Q t w1)
      → ((t : T) → SafeIf (Q t) (next t))
      → Safe m reads (act >>= next)
  unfolding ◌>>=◌
  result-Safe Q act next a h k w q = result-SafeIf Q (act w) next (a w q) (λ w1 t e. h w w1 t e) k

  rejected-SafeIf :
      (Q : Wire → Type 0) (code : ℕ) → Hears Q code → SafeIf Q (from_try (rejected code))
  unfolding from_try
  rejected-SafeIf Q code heard w q h =
      (undotted m reads w.log q.0, rejected-Fits w.log code (heard w h))

  unless_rejected-SafeIf :
      (Q : Wire → Type 0) (code : ℕ) (next : Act AttemptResult)
      → Hears Q code
      → (within 200 299 code ≡ true → SafeIf Q next)
      → SafeIf Q (unless_rejected code next)
  unfolding unless_rejected
  unless_rejected-SafeIf Q code next heard k = elim (Bool-cases (within 200 299 code)) [
    | inl e ↦ rw e (k e)
    | inr e ↦ rw e (rejected-SafeIf Q code heard)
  ]

  -- behind the final dot
  replied :
      (r : Wire × Try Failure Response)
      → IsComplete m reads r.0.log
      → FailsIn IsConnection r.1
      → ((w1 : Wire) (last : Response)
          → r ≡ (w1, good last)
          → Answered IsBehindDot last.code w1.log)
      → Verdict m reads
          (continue_with (λ last. unless_rejected last.code (give (delivered last.code))) r)
  unfolding unless_rejected from_try give
  replied (w, bad e) c f a = (λ _. c, subst (λ (x : Failure). Fits w.log (bad x)) (sym f) tt)
  replied (w, good last) c f a = elim (Bool-cases (within 200 299 last.code)) [
    | inl e ↦ rw e (λ _. c, (c.0, ground arith, ground arith, a w last refl))
    | inr e ↦ rw e (
      λ _. c,
      rejected-Fits w.log last.code
          (Answered-has_reply IsBehindDot last.code w.log (a w last refl)),
    )
  ]

  abbrev ending : Act AttemptResult
  ending = do last ← response false; unless_rejected last.code (give (delivered last.code))

  ending-Verdict :
      (w : Wire) → IsComplete m reads w.log → IsBehindDot w.log → Verdict m reads (ending w)
  unfolding ◌>>=◌
  ending-Verdict w c b =
      replied (response false w) (response-Keeps (IsComplete m reads) false (λ l log h. h) w c)
        (response-Fails false w)
        (λ w1 last e. response-Answered IsBehindDot (λ l log h. h) false w b e)

  last_write :
      (w : Wire) (r : Try Failure (Unit {0}))
      → FailsIn IsConnection r
      → IsComplete m reads w.log
      → IsBehindDot w.log
      → Verdict m reads (continue_with (λ _. ending) (w, r))
  last_write w (bad e) f c b = (λ _. c, subst (λ (x : Failure). Fits w.log (bad x)) (sym f) tt)
  last_write w (good tt) f c b = ending-Verdict w c b

  lasts-Fails : (n : ℕ) → FailsIn IsConnection (lasts n)
  lasts-Fails zero = refl
  lasts-Fails (suc n) = tt

  abbrev IsSent : List Event → Type 0
  IsSent log =
      (dotted log ≡ false) × (is_marked log ≡ true) × IsWhole m (stored reads) (body_of log)

  dot-Verdict : (w : Wire) → IsSent w.log → Verdict m reads ((write final_dot >> ending) w)
  unfolding ◌>>◌ write
  dot-Verdict w s =
      last_write (record w { log = final_dot ∷ w.log; writes_left = one_less w.writes_left })
        (lasts w.writes_left) (lasts-Fails w.writes_left) (refl, s.1, s.2) refl

  -- behind `before_body`
  abbrev IsMarked : List Event → Type 0
  IsMarked log = (dotted log ≡ false) × (is_marked log ≡ true)

  body_sent :
      (w : Wire) (r : Wire × Try Failure (Unit {0}))
      → body_of w.log ≡ []
      → send_body m reads w ≡ r
      → IsMarked r.0.log
      → Verdict m reads (continue_with (λ _. write final_dot >> ending) r)
  body_sent w (w', bad e) q h k = failed_quiet m reads w' e k.0
  body_sent w (w', good tt) q h k =
      let (written, log, whole) = send_body-IsWhole m reads w h in
      dot-Verdict w' (
        k.0,
        k.1,
        subst (IsWhole m (stored reads)) (sym (log ∙ ap (λ (b : Bytes). b ++ written) q)) whole,
      )

  body-Verdict :
      (w : Wire)
      → IsMarked w.log
      → body_of w.log ≡ []
      → Verdict m reads ((send_body m reads >> (write final_dot >> ending)) w)
  body-Verdict w k q =
      unfold ◌>>◌ in
      body_sent w (send_body m reads w) q refl (
        send_body-Keeps (λ (u : Wire). IsMarked u.log) m reads
          (λ b. write-Keeps IsMarked (body b) (λ log h. h)) w k)

  marked_then :
      (marks : Bool)
      → Safe m reads (mark marks >> (send_body m reads >> (write final_dot >> ending)))
  unfolding ◌>>◌ note fail
  marked_then false w q = failed_quiet m reads w connection q.0
  marked_then true w q = body-Verdict (record w { log = marked ∷ w.log }) (q.0, refl) q.1

  transfer-SafeIf :
      (Q : Wire → Type 0) (marks : Bool) (code : ℕ)
      → Hears Q code
      → SafeIf Q (transfer marks m reads code)
  unfolding transfer
  transfer-SafeIf Q marks code heard = elim (Bool-cases (code == 354)) [
    | inl e ↦ rw e (λ w q _. marked_then marks w q)
    | inr e ↦ rw e (rejected-SafeIf Q code heard)
  ]

  -- behind one command and its reply
  exchange-Safe :
      (text : Bytes) (next : Response → Act AttemptResult)
      → ((r : Response) → SafeIf (Heard r.code) (next r))
      → Safe m reads (exchange text false >>= next)
  exchange-Safe text next k =
      result-Safe (λ r. Heard r.code) (exchange text false) next (exchange-Keeps text false)
        (λ w w1 r e. exchange-Heard text false w e) k

  deliver-Safe : (marks : Bool) (c : Capabilities) → Safe m reads (deliver marks m reads c)
  unfolding deliver
  deliver-Safe marks c = then-Safe _ _ (ensure-Keeps IsQuiet _ _) (
      then-Safe _ _ (ensure-Keeps IsQuiet _ _) (elim (Bool-cases c.pipelining) [
        | inl e ↦ rw e (
            result-Safe HeardAll (envelope_pipeline _) _ (envelope_pipeline-Keeps _)
              (λ w w1 replies h. envelope_pipeline-HeardAll _ w h)
              (λ replies.
                unless_rejected-SafeIf (HeardAll replies) replies.0 _ (λ w h. h.first)
                  (λ a.
                    unless_rejected-SafeIf (HeardAll replies) replies.1 _ (λ w h. h.second a)
                      (λ b.
                        transfer-SafeIf (HeardAll replies) marks replies.2 (λ w h. h.third a b)))))
        | inr e ↦ rw e (
            exchange-Safe _ _ (λ first.
              unless_rejected-SafeIf (Heard first.code) first.code _ (λ w h. h)
                (λ _ w q _.
                  exchange-Safe _ _
                    (λ second.
                      unless_rejected-SafeIf (Heard second.code) second.code _ (λ u h. h)
                        (λ _ u p _.
                          exchange-Safe _ _
                            (λ third.
                              transfer-SafeIf (Heard third.code) marks third.code (λ v h. h))
                            u p))
                    w q)))
      ]))

  pub try_attempt-Safe :
      (client : SmtpClient) (marks : Bool) → Safe m reads (try_attempt client marks m reads)
  unfolding try_attempt
  try_attempt-Safe client marks =
      chain-Safe _ _ (connect-Keeps client) (λ ehlo. deliver-Safe marks ehlo.capabilities)
