-- ===== src/Framing/Drive/Frames.antt =====
-- What the loop makes of a chunk: the frames of the stream in order, and an open line.
use rustymail.Base.{
  ℕ, zero, suc, ◌≤◌, ◌≡◌, refl, sym, ap, subst, ◌∙◌, Bool, true, false, List, [], ◌∷◌, ◌++◌,
  append_assoc, append-nil, arith, length, length-append, drop, drop-append, all, All, inl, some,
  none,
}
use rustymail.Base.Try.{Try, good, bad}
use rustymail.Bytes.{Bytes}
use native.Mathlib.Nat.{zero-add}
use rustymail.Framing.{Result, ok, err, LineDecoder, feed_buffered, clear, crlf}
use rustymail.Framing.Grammar.{is_text, IsFramed, feed_buffered-IsFramed}
use rustymail.Framing.Lines.{feed_from-limit}
use rustymail.Framing.Feed.{Fed, feed_from-Fed, feed_buffered-open}
use rustymail.Framing.Drive.{Run, unless_refused, dispatch, drain, feed_chunk, process_all}

-- A whole line that fits: text and one CRLF.
abbrev pub IsFrame : ℕ → Bytes → Type 0
IsFrame limit f = (length f ≤ limit) × ((t : Bytes) × (all is_text t ≡ true) × (f ≡ t ++ crlf))

abbrev pub concat : List Bytes → Bytes
concat [] = []
concat (f ∷ frames) = f ++ concat frames

-- An open line of a decoder with this limit.
abbrev pub IsOpen : ℕ → LineDecoder → Type 0
IsOpen limit d = IsFramed d × (d.complete ≡ false) × (d.limit ≡ limit)

module _ {ε σ} {E : Type ε} {S : Type σ} (process : S → Bytes → Try E S) where
  -- The frames that the loop has passed to the step, and the line it leaves open.
  pub record Drained (limit : ℕ) (buffer : Bytes) (s : S) (bytes : Bytes) (end : LineDecoder)
      (t : S) : Type (ε ⊔ σ) where
    pub frames : List Bytes
    pub split : buffer ++ bytes ≡ concat frames ++ end.buffer
    pub fit : All (IsFrame limit) frames
    pub steps : process_all process s frames ≡ good t
    pub ends_open : IsOpen limit end

  idle : (limit : ℕ) (d : LineDecoder) (s : S) → IsOpen limit d → Drained limit d.buffer s [] d s
  idle limit d s o = record {
    frames = [];
    split = append-nil d.buffer;
    fit = tt;
    steps = unfold process_all in refl;
    ends_open = o;
  }

  first_frame :
      (limit : ℕ) (buffer taken rest : Bytes) (s s' t : S) (end : LineDecoder)
      → IsFrame limit (buffer ++ taken)
      → process s (buffer ++ taken) ≡ good s'
      → Drained limit [] s' rest end t
      → Drained limit buffer s (taken ++ rest) end t
  first_frame limit buffer taken rest s s' t end whole step d = record {
    frames = (buffer ++ taken) ∷ d.frames;
    split =
        sym (append_assoc buffer taken rest)
        ∙ ap (λ (b : Bytes). (buffer ++ taken) ++ b) d.split
        ∙ sym (append_assoc (buffer ++ taken) (concat d.frames) end.buffer);
    fit = (whole, d.fit);
    steps = unfold process_all in rw step d.steps;
    ends_open = d.ends_open;
  }

  absorbed :
      (limit : ℕ) (buffer bytes : Bytes) (s t : S) (end : LineDecoder)
      → Drained limit (buffer ++ bytes) s [] end t
      → Drained limit buffer s bytes end t
  absorbed limit buffer bytes s t end d = record {
    frames = d.frames;
    split = sym (append-nil (buffer ++ bytes)) ∙ d.split;
    fit = d.fit;
    steps = d.steps;
    ends_open = d.ends_open;
  }

pub drop-all : (bytes : Bytes) → drop (length bytes) bytes ≡ []
drop-all [] = refl
drop-all (x ∷ xs) = drop-all xs

framed :
    (limit : ℕ) (d : LineDecoder)
    → IsFramed d
    → d.complete ≡ true
    → d.limit ≡ limit
    → IsFrame limit d.buffer
framed limit d f whole e = (omega (arith, f.bounded), rw whole at f.shape)

cleared : (limit : ℕ) (d : LineDecoder) → d.limit ≡ limit → IsOpen limit (clear d)
unfolding clear
cleared limit d e = (record { bounded = omega arith; shape = ([], refl, inl refl) }, refl, e)

module _ {ε σ} {E : Type ε} {S : Type σ} where
  unless_refused-good :
      (r : Try E S) (next : S → Run E S) {p : LineDecoder × S}
      → unless_refused r next ≡ some (good p)
      → (t : S) × (r ≡ good t) × (next t ≡ some (good p))
  unless_refused-good (bad e) next h = ground arith
  unless_refused-good (good t) next h = (t, refl, h)

  some_good-injective :
      {p q : LineDecoder × S} → ◌≡◌ {A = Run E S} (some (good p)) (some (good q)) → p ≡ q
  some_good-injective h = ground arith

  not_cut :
      (o : Run E S) (refuse : E) {p : LineDecoder × S}
      → elim o [ some r ↦ r | none ↦ bad refuse ] ≡ good p
      → o ≡ some (good p)
  not_cut (some r) refuse h = ap some h
  not_cut none refuse h = cc

module _ {ε σ} {E : Type ε} {S : Type σ} (process : S → Bytes → Try E S) (refuse : E) where
  dispatch-Drained :
      (limit rounds : ℕ) (d : LineDecoder) (s : S) (bytes : Bytes)
      (r : LineDecoder × Result (ℕ × Bool)) {end : LineDecoder} {t : S}
      → ((d' : LineDecoder) (s' : S) (more : Bytes)
          → length more ≤ rounds
          → IsOpen limit d'
          → drain process refuse rounds d' s' more ≡ some (good (end, t))
          → Drained process limit d'.buffer s' more end t)
      → Fed d 0 bytes r
      → IsFramed r.0
      → r.0.limit ≡ limit
      → length bytes ≤ suc rounds
      → dispatch process refuse (drain process refuse rounds) r s bytes ≡ some (good (end, t))
      → Drained process limit d.buffer s bytes end t
  unfolding dispatch clear
  dispatch-Drained limit rounds d s bytes (fed, err e) again f g l enough h = ground arith
  dispatch-Drained limit rounds d s bytes (fed, ok (used, false)) {end} {t} again
        (count, buffer, part) g l enough h =
      let nothing : drop used bytes ≡ [] =
        ap (λ (n : ℕ). drop n bytes) (count ∙ zero-add (length bytes)) ∙ drop-all bytes in
      let tail = again fed s [] (omega arith) (g, part, l) (rw nothing at h) in
      absorbed process limit d.buffer bytes s t end (rw buffer at tail)
  dispatch-Drained limit rounds d s bytes (fed, ok (used, true)) {end} {t} again
        (taken, rest, split, count, more, buffer, whole) g l enough h =
      let (s', step, next) = unless_refused-good (process s fed.buffer) _ h in
      let left : drop used bytes ≡ rest =
        ap (λ (n : ℕ). drop n bytes) (count ∙ zero-add (length taken))
        ∙ ap (drop (length taken)) split
        ∙ drop-append taken rest in
      let is_frame = framed limit fed g whole l in
      rw split (
        first_frame process limit d.buffer taken rest s s' t end (rw buffer at is_frame)
          (rw buffer at step)
          (again (clear fed) s' rest (omega (arith, ap length split, length-append taken rest))
            (cleared limit fed l) (rw left at next)))

  drain-Drained :
      (rounds limit : ℕ) (d : LineDecoder) (s : S) (bytes : Bytes) {end : LineDecoder} {t : S}
      → length bytes ≤ rounds
      → IsOpen limit d
      → drain process refuse rounds d s bytes ≡ some (good (end, t))
      → Drained process limit d.buffer s bytes end t
  unfolding drain
  drain-Drained rounds limit d s [] {end} {t} enough o h =
      subst (λ (p : LineDecoder × S). Drained process limit d.buffer s [] p.0 p.1)
        (some_good-injective h) (idle process limit d s o)
  drain-Drained zero limit d s (b ∷ bytes) enough o h = absurd (omega (arith, enough))
  drain-Drained (suc rounds) limit d s (b ∷ bytes) {end} {t} enough (f, part, l) h =
      dispatch-Drained limit rounds d s (b ∷ bytes) (feed_buffered d (b ∷ bytes))
        (λ d' s' more room o' h'. drain-Drained rounds limit d' s' more room o' h')
        (rw (feed_buffered-open d (b ∷ bytes) part) (feed_from-Fed (b ∷ bytes) d 0 part))
        (feed_buffered-IsFramed d (b ∷ bytes) f)
        (rw (feed_buffered-open d (b ∷ bytes) part) (feed_from-limit (b ∷ bytes) d 0 ∙ l)) enough h

  -- What one chunk adds to the line that the decoder has open: whole frames, each of which the step has
  -- accepted in order, and then an open line.
  pub feed_chunk-Drained :
      (limit : ℕ) (d : LineDecoder) (s : S) (bytes : Bytes) {end : LineDecoder} {t : S}
      → IsOpen limit d
      → feed_chunk process refuse d s bytes ≡ good (end, t)
      → Drained process limit d.buffer s bytes end t
  unfolding feed_chunk
  feed_chunk-Drained limit d s bytes o h =
      drain-Drained (length bytes) limit d s bytes (omega arith) o
        (not_cut (drain process refuse (length bytes) d s bytes) refuse h)
