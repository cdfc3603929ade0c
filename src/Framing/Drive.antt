-- ===== src/Framing/Drive.antt =====
-- The loop `while !bytes.is_empty()` around `feed_buffered` in `send_body` of
-- crates/client/src/smtp.rs, `prepare` of crates/client/src/message.rs and `SubmissionHeaders` of
-- crates/server/src/lib.rs: each whole frame goes to a step of the caller's, which may refuse it.
pub mod Frames
pub mod Rounds
use rustymail.Base.{
  ℕ, zero, suc, Bool, true, false, List, [], ◌∷◌, ◌++◌, Option, none, some, length, drop,
}
use rustymail.Base.Try.{Try, good, bad, ◌>>=◌}
use rustymail.Bytes.{Bytes}
use rustymail.Framing.{Result, ok, err, LineDecoder, feed_buffered, clear, crlf}

-- What a loop comes to, or nothing when it is cut off with input left.
abbrev pub Run {ε σ} : Type ε → Type σ → Type (ε ⊔ σ)
Run E S = Option (Try E (LineDecoder × S))

abbrev pub unless_refused {ε σ} : {E : Type ε} {S : Type σ} → Try E S → (S → Run E S) → Run E S
unless_refused (bad e) next = some (bad e)
unless_refused (good t) next = next t

module _ {ε σ} {E : Type ε} {S : Type σ} (process : S → Bytes → Try E S) (refuse : E) where
  -- one round behind its feed; `rest` is the rounds that follow
  unfoldable pub dispatch :
      (LineDecoder → S → Bytes → Run E S) → LineDecoder × Result (ℕ × Bool) → S → Bytes → Run E S
  dispatch rest (fed, err e) s bytes = some (bad refuse)
  dispatch rest (fed, ok (used, true)) s bytes =
      unless_refused (process s fed.buffer) (λ t. rest (clear fed) t (drop used bytes))
  dispatch rest (fed, ok (used, false)) s bytes = rest fed s (drop used bytes)

  -- the loop, cut off behind a number of rounds
  unfoldable pub drain : ℕ → LineDecoder → S → Bytes → Run E S
  drain rounds d s [] = some (good (d, s))
  drain zero d s (b ∷ bytes) = none
  drain (suc rounds) d s (b ∷ bytes) =
      dispatch (drain rounds) (feed_buffered d (b ∷ bytes)) s (b ∷ bytes)

  -- The loop over one chunk of input, with a round for each byte, since each takes a byte at least.
  unfoldable pub feed_chunk : LineDecoder → S → Bytes → Try E (LineDecoder × S)
  unfolding drain
  feed_chunk d s bytes = elim (drain (length bytes) d s bytes) [ some r ↦ r | none ↦ bad refuse ]

module _ {ε σ} {E : Type ε} {S : Type σ} (process : S → Bytes → Try E S) where
  -- the step over frames one after the other
  unfoldable pub process_all : S → List Bytes → Try E S
  process_all s [] = good s
  process_all s (f ∷ frames) = process s f >>= (λ t. process_all t frames)
