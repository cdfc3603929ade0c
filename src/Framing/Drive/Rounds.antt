-- ===== src/Framing/Drive/Rounds.antt =====
-- The rounds that the loop over a chunk needs, and what it comes to in them.
use rustymail.Base.{
  ℕ, zero, suc, ◌≤◌, ◌<◌, ◌≡◌, refl, ap, ◌∙◌, Bool, true, false, [], ◌∷◌, some, arith, length,
  length-append, drop, drop-append,
}
use native.Mathlib.Nat.{zero-add}
use rustymail.Base.Try.{Try, good, bad}
use rustymail.Bytes.{Bytes}
use rustymail.Framing.{Result, ok, err, FrameError, LineDecoder, feed_buffered, clear}
use rustymail.Framing.Feed.{Fed, feed_from-Fed, feed_buffered-open}
use rustymail.Framing.Drive.{dispatch, drain, feed_chunk}
use rustymail.Framing.Drive.Frames.{drop-all}

module _ {ε σ} {E : Type ε} {S : Type σ} (process : S → Bytes → Try E S) (refuse : E) where
  -- The loop `while !bytes.is_empty()` as its rounds: where it starts, and what it comes to. A decoder
  -- that refuses ends it, and so does the step; a frame that the step accepts is cleared away, and the
  -- loop goes on behind the bytes used.
  pub data Loops : LineDecoder → S → Bytes → Try E (LineDecoder × S) → Type (ε ⊔ σ) where
    at_end : (d : LineDecoder) (s : S) → Loops d s [] (good (d, s))
    malformed :
        {d fed : LineDecoder} {s : S} {b : ℕ} {bytes : Bytes} {e : FrameError}
        → feed_buffered d (b ∷ bytes) ≡ (fed, err e)
        → Loops d s (b ∷ bytes) (bad refuse)
    refused :
        {d fed : LineDecoder} {s : S} {b used : ℕ} {bytes : Bytes} {e : E}
        → feed_buffered d (b ∷ bytes) ≡ (fed, ok (used, true))
        → process s fed.buffer ≡ bad e
        → Loops d s (b ∷ bytes) (bad e)
    accepted :
        {d fed : LineDecoder} {s t : S} {b used : ℕ} {bytes : Bytes} {r : Try E (LineDecoder × S)}
        → feed_buffered d (b ∷ bytes) ≡ (fed, ok (used, true))
        → process s fed.buffer ≡ good t
        → 0 < used
        → Loops (clear fed) t (drop used (b ∷ bytes)) r
        → Loops d s (b ∷ bytes) r
    unfinished :
        {d fed : LineDecoder} {s : S} {b used : ℕ} {bytes : Bytes} {r : Try E (LineDecoder × S)}
        → feed_buffered d (b ∷ bytes) ≡ (fed, ok (used, false))
        → 0 < used
        → Loops fed s (drop used (b ∷ bytes)) r
        → Loops d s (b ∷ bytes) r

  -- The loop from here comes to its end, and `drain` to the same with enough rounds.
  abbrev Ends : LineDecoder → S → Bytes → Type (ε ⊔ σ)
  Ends d s bytes =
      (r : Try E (LineDecoder × S)) × Loops d s bytes r
      × ((n : ℕ) → length bytes ≤ n → drain process refuse n d s bytes ≡ some r)

  first_round :
      (d : LineDecoder) (s : S) (b : ℕ) (bytes : Bytes) (r : Try E (LineDecoder × S))
      → ((m : ℕ)
          → length bytes ≤ m
          → dispatch process refuse
              (drain process refuse m)
              (feed_buffered d (b ∷ bytes))
              s
              (b ∷ bytes)
            ≡ some r)
      → (n : ℕ) → length (b ∷ bytes) ≤ n
      → drain process refuse n d s (b ∷ bytes) ≡ some r
  unfolding drain
  first_round d s b bytes r h zero enough = absurd (omega (arith, enough))
  first_round d s b bytes r h (suc m) enough = h m (omega (arith, enough))

  whole_ends :
      (d fed : LineDecoder) (s : S) (b used : ℕ) (bytes : Bytes) (step : Try E S)
      → feed_buffered d (b ∷ bytes) ≡ (fed, ok (used, true))
      → process s fed.buffer ≡ step
      → 0 < used
      → length (drop used (b ∷ bytes)) < length (b ∷ bytes)
      → ((t : S) → Ends (clear fed) t (drop used (b ∷ bytes)))
      → Ends d s (b ∷ bytes)
  unfolding dispatch
  whole_ends d fed s b used bytes (bad e) f p more shorter again =
      (bad e, refused f p, first_round d s b bytes (bad e) (λ m _. rw (f, p) refl))
  whole_ends d fed s b used bytes (good t) f p more shorter again =
      let (r, loops, rounds) = again t in
      (
        r,
        accepted f p more loops,
        first_round d s b bytes r
            (λ m enough. rw (f, p) (rounds m (omega (arith, shorter, enough)))),
      )

  round_ends :
      (d : LineDecoder) (s : S) (b : ℕ) (bytes : Bytes) (r : LineDecoder × Result (ℕ × Bool))
      → ((d' : LineDecoder) (s' : S) (more : Bytes)
          → d'.complete ≡ false
          → length more < length (b ∷ bytes)
          → Ends d' s' more)
      → feed_buffered d (b ∷ bytes) ≡ r
      → Fed d 0 (b ∷ bytes) r
      → Ends d s (b ∷ bytes)
  unfolding dispatch clear
  round_ends d s b bytes (fed, err e) again f k =
      (bad refuse, malformed f, first_round d s b bytes (bad refuse) (λ m _. rw f refl))
  round_ends d s b bytes (fed, ok (used, false)) again f (count, buffer, part) =
      let nothing : drop used (b ∷ bytes) ≡ [] =
        ap (λ (k : ℕ). drop k (b ∷ bytes)) (count ∙ zero-add (length (b ∷ bytes)))
        ∙ drop-all (b ∷ bytes) in
      let shorter : length (drop used (b ∷ bytes)) < length (b ∷ bytes) =
        rw nothing (omega arith) in
      let (r, loops, rounds) = again fed s (drop used (b ∷ bytes)) part shorter in
      (
        r,
        unfinished f (omega (arith, count)) loops,
        first_round d s b bytes r (λ m enough. rw f (rounds m (omega (arith, shorter, enough)))),
      )
  round_ends d s b bytes (fed, ok (used, true)) again f
        (taken, rest, split, count, more, buffer, whole) =
      let left : drop used (b ∷ bytes) ≡ rest =
        ap (λ (k : ℕ). drop k (b ∷ bytes)) (count ∙ zero-add (length taken))
        ∙ ap (drop (length taken)) split
        ∙ drop-append taken rest in
      let shorter : length (drop used (b ∷ bytes)) < length (b ∷ bytes) =
        rw left (omega (arith, more, ap length split, length-append taken rest)) in
      whole_ends d fed s b used bytes (process s fed.buffer) f refl (omega (arith, count, more))
        shorter (λ t. again (clear fed) t (drop used (b ∷ bytes)) refl shorter)

  ends :
      (k : ℕ) (d : LineDecoder) (s : S) (bytes : Bytes)
      → d.complete ≡ false
      → length bytes ≤ k
      → Ends d s bytes
  unfolding drain
  ends k d s [] h enough = (good (d, s), at_end d s, λ n _. refl)
  ends zero d s (b ∷ bytes) h enough = absurd (omega (arith, enough))
  ends (suc k) d s (b ∷ bytes) h enough =
      round_ends d s b bytes (feed_buffered d (b ∷ bytes))
        (λ d' s' more part shorter. ends k d' s' more part (omega (arith, shorter, enough))) refl
        (rw (feed_buffered-open d (b ∷ bytes) h) (feed_from-Fed (b ∷ bytes) d 0 h))

  -- On a decoder with no complete line, the loop over a chunk comes to its end, at the end of the chunk
  -- or with a refusal, and never without a step forward: `feed_chunk` returns what the rounds of the loop
  -- come to, and so does the loop that is cut off behind as many rounds as the chunk has bytes or more.
  pub feed_chunk-rounds :
      (rounds : ℕ) (d : LineDecoder) (s : S) (bytes : Bytes)
      → d.complete ≡ false
      → length bytes ≤ rounds
      → Loops d s bytes (feed_chunk process refuse d s bytes)
        × (drain process refuse rounds d s bytes ≡ some (feed_chunk process refuse d s bytes))
  unfolding feed_chunk
  feed_chunk-rounds rounds d s bytes open_line enough =
      let (r, loops, all_rounds) = ends (length bytes) d s bytes open_line (omega arith) in
      rw (all_rounds (length bytes) (omega arith), feed_chunk) (loops, all_rounds rounds enough)
