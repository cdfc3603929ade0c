-- ===== src/Framing/Feed.antt =====
-- How `feed_buffered` uses its input: the index is only an offset, an incomplete feed has used all
-- of it, and feeding two pieces one after the other is feeding them at once.
use rustymail.Base.{
  ℕ, ◌+◌, ◌<◌, ◌≡◌, refl, sym, ap, ◌∙◌, Bool, true, false, [], ◌∷◌, ◌++◌, arith, ◌==◌, length,
  Bool-cases, inl, inr, append-nil, append_assoc,
}
use native.Mathlib.Nat.{add_assoc, add-zero}
use rustymail.Bytes.{Bytes}
use rustymail.Framing.{Result, ok, err, LineDecoder, invalid_after, push, feed_from, feed_buffered}

-- the count of used bytes, moved by `n`
abbrev pub shift : ℕ → Result (ℕ × Bool) → Result (ℕ × Bool)
shift n (ok (used, whole)) = ok (n + used, whole)
shift n (err e) = err e

pub feed_from-shift :
    (bytes : Bytes) (d : LineDecoder) (n i : ℕ)
    → feed_from d (n + i) bytes ≡ ((feed_from d i bytes).0, shift n (feed_from d i bytes).1)
unfolding feed_from
feed_from-shift [] d n i = refl
feed_from-shift (b ∷ bs) d n i =
    ground (arith, feed_from-shift bs (push d b) n (i + 1), add_assoc n i 1)

-- What comes back of a feed that goes on with a second piece.
abbrev pub continue : LineDecoder × Result (ℕ × Bool) → Bytes → LineDecoder × Result (ℕ × Bool)
continue (d, ok (used, true)) bytes = (d, ok (used, true))
continue (d, ok (used, false)) bytes = feed_from d used bytes
continue (d, err e) bytes = (d, err e)

feed_from-append :
    (a b : Bytes) (d : LineDecoder) (i : ℕ) → feed_from d i (a ++ b) ≡ continue (feed_from d i a) b
unfolding feed_from
feed_from-append [] b d i = refl
feed_from-append (x ∷ xs) b d i = ground (arith, feed_from-append xs b (push d x) (i + 1))

-- What a feed from index `i` on an open line returns. It takes a first part of the input into the
-- buffer, counts it, and leaves the rest; an incomplete line takes all, a whole line at least a byte.
abbrev pub Fed : LineDecoder → ℕ → Bytes → LineDecoder × Result (ℕ × Bool) → Type 0
Fed d i bytes (d', ok (used, true)) =
    (taken : Bytes) × (rest : Bytes) × (bytes ≡ taken ++ rest)
    × (used ≡ i + length taken)
    × (0 < length taken)
    × (d'.buffer ≡ d.buffer ++ taken)
    × (d'.complete ≡ true)
Fed d i bytes (d', ok (used, false)) =
    (used ≡ i + length bytes) × (d'.buffer ≡ d.buffer ++ bytes) × (d'.complete ≡ false)
Fed d i bytes (d', err e) = d'.complete ≡ false

Fed-cons :
    (d : LineDecoder) (i b : ℕ) (bs : Bytes) (r : LineDecoder × Result (ℕ × Bool))
    → Fed (push d b) (i + 1) bs r
    → Fed d i (b ∷ bs) r
Fed-cons d i b bs (d', ok (used, true)) (taken, rest, split, count, more, buffer, whole) = (
  b ∷ taken,
  rest,
  ap (◌∷◌ b) split,
  omega arith,
  omega arith,
  buffer ∙ append_assoc d.buffer (b ∷ []) taken,
  whole,
)
Fed-cons d i b bs (d', ok (used, false)) (count, buffer, part) =
    (omega arith, buffer ∙ append_assoc d.buffer (b ∷ []) bs, part)
Fed-cons d i b bs (d', err e) part = part

pub feed_from-Fed :
    (bytes : Bytes) (d : LineDecoder) (i : ℕ)
    → d.complete ≡ false
    → Fed d i bytes (feed_from d i bytes)
unfolding feed_from
feed_from-Fed [] d i h = (omega arith, sym (append-nil d.buffer), h)
feed_from-Fed (b ∷ bs) d i h = elim (Bool-cases (length d.buffer == d.limit)) [
  | inl full ↦ rw full h
  | inr room ↦ rw room (elim (Bool-cases (invalid_after d.buffer b)) [
    | inl refused ↦ rw refused h
    | inr allowed ↦ rw allowed (elim (Bool-cases (b == b'\n')) [
      | inl newline ↦ rw newline (b ∷ [], bs, refl, omega arith, omega arith, refl, refl)
      | inr other ↦ rw other (
          Fed-cons d i b bs (feed_from (push d b) (i + 1) bs)
            (feed_from-Fed bs (push d b) (i + 1) h))
    ])
  ])
]

-- A first feed and, unless it failed or found a whole line, a second one that adds to its count.
abbrev pub then_feed : LineDecoder × Result (ℕ × Bool) → Bytes → LineDecoder × Result (ℕ × Bool)
then_feed (d, ok (used, true)) b = (d, ok (used, true))
then_feed (d, ok (used, false)) b = ((feed_buffered d b).0, shift used (feed_buffered d b).1)
then_feed (d, err e) b = (d, err e)

pub feed_buffered-open :
    (d : LineDecoder) (b : Bytes) → d.complete ≡ false → feed_buffered d b ≡ feed_from d 0 b
unfolding feed_buffered
feed_buffered-open d b h = rw h

feed_from-open :
    (d : LineDecoder) (n : ℕ) (b : Bytes)
    → d.complete ≡ false
    → feed_from d n b ≡ ((feed_buffered d b).0, shift n (feed_buffered d b).1)
feed_from-open d n b h =
    rw (feed_buffered-open d b h)
      (ap (λ (k : ℕ). feed_from d k b) (sym (add-zero n)) ∙ feed_from-shift b d n 0)

continue-then_feed :
    (d : LineDecoder) (a b : Bytes) (r : LineDecoder × Result (ℕ × Bool))
    → Fed d 0 a r
    → continue r b ≡ then_feed r b
continue-then_feed d a b (d', ok (used, true)) f = refl
continue-then_feed d a b (d', ok (used, false)) f = feed_from-open d' used b f.2
continue-then_feed d a b (d', err e) f = refl

-- However the input is cut in two, feeding the pieces one after the other returns what feeding all
-- of it at once returns: the same decoder, the same count or the same error.
pub feed_buffered-append :
    (d : LineDecoder) (a b : Bytes) → feed_buffered d (a ++ b) ≡ then_feed (feed_buffered d a) b
feed_buffered-append d a b = elim (Bool-cases d.complete) [
  | inl whole ↦ unfold feed_buffered in rw whole
  | inr part ↦
      rw (feed_buffered-open d (a ++ b) part, feed_buffered-open d a part)
        (feed_from-append a b d 0 ∙ continue-then_feed d a b _ (feed_from-Fed a d 0 part))
]
