-- ===== src/Framing/Grammar.antt =====
-- What a decoder's buffer may hold, and which lines it lets through.
use rustymail.Base.{
  ℕ, ◌+◌, ◌≤◌, ◌≡◌, refl, Bool, true, false, not, ◌&&◌, [], ◌∷◌, ◌++◌, ◌⊎◌, inl, inr, arith, ◌==◌,
  length, length-append, append_assoc, all, all-append, Bool-cases,
}
use rustymail.Bytes.{Bytes, ends_with}
use rustymail.Framing.{LineDecoder, crlf, invalid_after, push, feed_from, feed_buffered, new}

-- A byte of a line: not NUL, CR or LF.
abbrev pub is_text : ℕ → Bool
is_text c = not (c == 0) && not (c == b'\n') && not (c == b'\r')

-- The buffer of a complete line is text and CRLF; of an open one, text, perhaps with a CR.
abbrev pub Shape : Bool → Bytes → Type 0
Shape true s = (t : Bytes) × (all is_text t ≡ true) × (s ≡ t ++ crlf)
Shape false s = (t : Bytes) × (all is_text t ≡ true) × ((s ≡ t) ⊎ (s ≡ t ++ (b'\r' ∷ [])))

pub record IsFramed (d : LineDecoder) : Type 0 where
  pub bounded : length d.buffer ≤ d.limit
  pub shape : Shape d.complete d.buffer

pub new-IsFramed : (limit : ℕ) → IsFramed (new limit)
new-IsFramed limit = record { bounded = omega arith; shape = ([], refl, inl refl) }

pub ends_with-concat : (c : ℕ) (s : Bytes) (x : ℕ) → ends_with c (s ++ (x ∷ [])) ≡ (x == c)
unfolding ends_with
ends_with-concat c [] x = refl
ends_with-concat c (y ∷ []) x = refl
ends_with-concat c (y ∷ z ∷ zs) x = ends_with-concat c (z ∷ zs) x

pub ends_with-text : (s : Bytes) → all is_text s ≡ true → ends_with b'\r' s ≡ false
unfolding ends_with
ends_with-text [] h = refl
ends_with-text (x ∷ []) h = ground arith
ends_with-text (x ∷ y ∷ ys) h = ends_with-text (y ∷ ys) (ground arith)

-- What may stand behind text, and what behind a CR.
after_text :
    (t : Bytes) (b : ℕ)
    → all is_text t ≡ true
    → invalid_after t b ≡ false
    → ((b == b'\n') ≡ false) × ((b ≡ b'\r') ⊎ (is_text b ≡ true))
after_text t b clean h = ground (arith, ends_with-text t clean)

after_cr : (t : Bytes) (b : ℕ) → invalid_after (t ++ (b'\r' ∷ [])) b ≡ false → b ≡ b'\n'
after_cr t b h = ground (arith, ends_with-concat b'\r' t b'\r')

-- A byte that is not refused, behind an open line.
push-Shape :
    (s : Bytes) (b : ℕ)
    → Shape false s
    → invalid_after s b ≡ false
    → Shape (b == b'\n') (s ++ (b ∷ []))
push-Shape s b (t, clean, inl e) h =
    let (plain, next) = after_text t b clean (rw e at h) in
    rw plain (elim next [
      | inl cr ↦ (t, clean, inr (rw (e, cr)))
      | inr text ↦ (t ++ (b ∷ []), all-append is_text t (b ∷ []) clean (ground arith), inl (rw e))
    ])
push-Shape s b (t, clean, inr e) h =
    let lf = after_cr t b (rw e at h) in
    rw (lf, e) (t, clean, append_assoc t (b'\r' ∷ []) (b'\n' ∷ []))

feed_from-IsFramed :
    (bytes : Bytes) (d : LineDecoder) (i : ℕ)
    → d.complete ≡ false
    → IsFramed d
    → IsFramed (feed_from d i bytes).0
unfolding feed_from
feed_from-IsFramed [] d i h f = f
feed_from-IsFramed (b ∷ bs) d i h f = elim (Bool-cases (length d.buffer == d.limit)) [
  | inl full ↦ rw full f
  | inr room ↦ rw room (elim (Bool-cases (invalid_after d.buffer b)) [
    | inl refused ↦ rw refused f
    | inr allowed ↦
        let shaped = push-Shape d.buffer b (rw h at f.shape) allowed in
        let fits : length (d.buffer ++ (b ∷ [])) ≤ d.limit =
          ground (arith, f.bounded, length-append d.buffer (b ∷ [])) in
        rw allowed (elim (Bool-cases (b == b'\n')) [
          | inl newline ↦ rw newline (record { bounded = fits; shape = rw newline at shaped })
          | inr other ↦ rw other (
              feed_from-IsFramed bs (push d b) (i + 1) h
                (record { bounded = fits; shape = rw h (rw other at shaped) }))
        ])
  ])
]

-- Whatever is fed, and whether or not it is refused, a decoder keeps this: the buffer holds at
-- most `limit` bytes, a complete line is bytes other than NUL, CR and LF with one CRLF at the end,
-- and an open one is such bytes with at most one CR at the end.
pub feed_buffered-IsFramed :
    (d : LineDecoder) (bytes : Bytes) → IsFramed d → IsFramed (feed_buffered d bytes).0
unfolding feed_buffered
feed_buffered-IsFramed d bytes f = elim (Bool-cases d.complete) [
  | inl whole ↦ simp whole f
  | inr part ↦ simp part (feed_from-IsFramed bytes d 0 part f)
]
