-- ===== src/Framing/Lines.antt =====
-- Which inputs give a line, and which line: the two directions.
use rustymail.Base.{
  ℕ, ◌+◌, ◌-◌, ◌≤◌, ◌≡◌, refl, sym, ap, ◌∙◌, Bool, true, false, [], ◌∷◌, ◌++◌, some, arith, length,
  length-append, append_assoc, all, all-append,
}
use rustymail.Bytes.{Bytes}
use rustymail.Framing.{
  Result, ok, err, LineDecoder, crlf, push, feed_from, feed_buffered, new, take_line, finish_feed,
  feed, truncate,
}
use rustymail.Framing.Grammar.{
  is_text, IsFramed, new-IsFramed, ends_with-concat, ends_with-text, feed_buffered-IsFramed,
}
use rustymail.Framing.Feed.{Fed, feed_from-Fed, feed_buffered-open}

abbrev finished : LineDecoder → Bytes → LineDecoder
finished d t = record d { buffer = d.buffer ++ (t ++ crlf); complete = true }

feed_from_crlf :
    (d : LineDecoder) (i : ℕ) (rest : Bytes)
    → all is_text d.buffer ≡ true
    → length d.buffer + 2 ≤ d.limit
    → feed_from d i (b'\r' ∷ b'\n' ∷ rest) ≡ (finished d [], ok (i + 1 + 1, true))
unfolding feed_from
feed_from_crlf d i rest clean room = ground (
  arith,
  ends_with-text d.buffer clean,
  ends_with-concat b'\r' d.buffer b'\r',
  length-append d.buffer (b'\r' ∷ []),
  append_assoc d.buffer (b'\r' ∷ []) (b'\n' ∷ []),
)

feed_from_step :
    (d : LineDecoder) (i x : ℕ) (bytes : Bytes)
    → all is_text d.buffer ≡ true
    → is_text x ≡ true
    → length d.buffer + 2 ≤ d.limit
    → feed_from d i (x ∷ bytes) ≡ feed_from (push d x) (i + 1) bytes
unfolding feed_from
feed_from_step d i x bytes clean text room = ground (arith, ends_with-text d.buffer clean)

feed_from_line :
    (t : Bytes) (d : LineDecoder) (i : ℕ) (rest : Bytes)
    → all is_text d.buffer ≡ true
    → all is_text t ≡ true
    → length d.buffer + length t + 2 ≤ d.limit
    → feed_from d i (t ++ (b'\r' ∷ b'\n' ∷ rest)) ≡ (finished d t, ok (i + length t + 2, true))
feed_from_line [] d i rest clean text room =
    ground (arith, feed_from_crlf d i rest clean (omega arith))
feed_from_line (x ∷ t) d i rest clean text room = ground (
  arith,
  feed_from_step d i x (t ++ (b'\r' ∷ b'\n' ∷ rest)) clean (ground arith) (omega arith),
  feed_from_line t (push d x) (i + 1) rest
      (all-append is_text d.buffer (x ∷ []) clean (ground arith)) (ground arith)
      (omega (arith, length-append d.buffer (x ∷ []))),
  append_assoc d.buffer (x ∷ []) (t ++ crlf),
)

truncate-append : (t s : Bytes) → truncate (length t + length s - length s) (t ++ s) ≡ t
truncate-append [] [] = refl
truncate-append [] (x ∷ s) = ground arith
truncate-append (x ∷ t) s = ground (arith, truncate-append t s)

truncate-crlf : (t : Bytes) → truncate (length (t ++ crlf) - 2) (t ++ crlf) ≡ t
truncate-crlf t = rw (length-append t crlf) (truncate-append t crlf)

take_line-crlf :
    (d : LineDecoder) (t : Bytes)
    → d.complete ≡ true
    → d.buffer ≡ t ++ crlf
    → take_line d ≡ (record d { buffer = []; complete = false }, some t)
unfolding take_line
take_line-crlf d t whole e =
    ground (arith, ap (λ (b : Bytes). truncate (length b - 2) b) e ∙ truncate-crlf t)

-- A fresh decoder that is fed a line of text that fits, its CRLF and anything behind it returns
-- that line, has used the line and its CRLF alone, and is fresh again.
pub feed-line :
    (limit : ℕ) (t rest : Bytes)
    → all is_text t ≡ true
    → length t + 2 ≤ limit
    → feed (new limit) (t ++ (crlf ++ rest)) ≡ (new limit, ok (length t + 2, some t))
feed-line limit t rest text room =
    unfold feed in
    ap finish_feed (
      feed_buffered-open (new limit) (t ++ (crlf ++ rest)) refl
      ∙ feed_from_line t (new limit) 0 rest refl text (omega arith))
    ∙ ground (arith, take_line-crlf (finished (new limit) t) t refl refl)

pub feed_from-limit :
    (bytes : Bytes) (d : LineDecoder) (i : ℕ) → (feed_from d i bytes).0.limit ≡ d.limit
unfolding feed_from
feed_from-limit [] d i = refl
feed_from-limit (b ∷ bs) d i = ground (arith, feed_from-limit bs (push d b) (i + 1))

finish_feed_sound :
    (limit : ℕ) (bytes : Bytes) (r : LineDecoder × Result (ℕ × Bool))
    → Fed (new limit) 0 bytes r
    → IsFramed r.0
    → r.0.limit ≡ limit
    → {d : LineDecoder} {used : ℕ} {t : Bytes} → finish_feed r ≡ (d, ok (used, some t))
    → (rest : Bytes) × (bytes ≡ t ++ (crlf ++ rest))
      × (used ≡ length t + 2)
      × (all is_text t ≡ true)
      × (used ≤ limit)
finish_feed_sound limit bytes (d', err e) f g l h = cc
finish_feed_sound limit bytes (d', ok (n, false)) f g l h = unfold take_line in ground arith
finish_feed_sound limit bytes (d', ok (n, true)) (taken, rest, split, count, more, buffer, whole) g
      l {d} {used} {t} h =
    let (t', clean, e) = rw whole at g.shape in
    let parts : bytes ≡ t' ++ (crlf ++ rest) =
      split ∙ ap (λ (b : Bytes). b ++ rest) (sym buffer ∙ e) ∙ append_assoc t' crlf rest in
    let found : (t' ≡ t) × (n ≡ used) = ground (arith, take_line-crlf d' t' whole e) in
    let size : length d'.buffer ≡ length t' + 2 = ap length e ∙ length-append t' crlf in
    (
      rest,
      cc (parts, found.0),
      omega (arith, ap length buffer, size, count, found.1, ap length found.0),
      rw (← found.0) clean,
      omega (arith, ap length buffer, count, found.1, g.bounded, l),
    )

-- When a fresh decoder returns a line, the input begins with that line and a CRLF, the line has no
-- NUL, CR or LF, and it fits with its CRLF into the limit.
pub feed_sound :
    (limit : ℕ) (bytes : Bytes) {d : LineDecoder} {used : ℕ} {t : Bytes}
    → feed (new limit) bytes ≡ (d, ok (used, some t))
    → (rest : Bytes) × (bytes ≡ t ++ (crlf ++ rest))
      × (used ≡ length t + 2)
      × (all is_text t ≡ true)
      × (used ≤ limit)
unfolding feed
feed_sound limit bytes h =
    finish_feed_sound limit bytes (feed_buffered (new limit) bytes)
      (feed_from-Fed bytes (new limit) 0 refl)
      (feed_buffered-IsFramed (new limit) bytes (new-IsFramed limit))
      (feed_from-limit bytes (new limit) 0) h
