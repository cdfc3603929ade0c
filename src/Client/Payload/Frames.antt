-- ===== src/Client/Payload/Frames.antt =====
-- What `send_body` puts into its output for a run of frames.
use rustymail.Base.{
  ◌≡◌, refl, sym, ap, ◌∙◌, Bool, true, false, ◌&&◌, if◌then◌else◌, List, [], ◌∷◌, ◌++◌, map,
  append_assoc, append-nil, arith, Bool-cases, inl, inr,
}
use rustymail.Base.Try.{good, bind-eq-good, good-injective}
use rustymail.Bytes.{Bytes, is_empty, equal_iff}
use rustymail.Framing.{stuff}
use rustymail.Framing.Drive.{process_all}
use rustymail.Framing.Drive.Frames.{concat}
use rustymail.Client.{Message}
use rustymail.Client.Payload.{Sending, send_frame}

-- The frames that are written: all, less a first one where there is a prefix to omit.
abbrev pub kept : Message → Bool → List Bytes → List Bytes
kept m first [] = []
kept m false (f ∷ frames) = f ∷ frames
kept m true (f ∷ frames) = if is_empty m.omit_prefix then f ∷ frames else frames

-- The first frame is the prefix to omit, where there is one.
abbrev pub StartsWith : Message → Bool → List Bytes → Type 0
StartsWith m first [] = Unit
StartsWith m false (f ∷ frames) = Unit
StartsWith m true (f ∷ frames) = is_empty m.omit_prefix ≡ false → f ≡ m.omit_prefix

-- The dot-stuffed bytes of frames.
abbrev pub stuffed : List Bytes → Bytes
stuffed frames = concat (map stuff frames)

pub kept-append :
    (m : Message) (xs ys : List Bytes)
    → kept m true (xs ++ ys) ≡ kept m true xs ++ kept m (is_empty xs) ys
kept-append m [] ys = refl
kept-append m (x ∷ xs) [] = ground (arith, append-nil xs, append-nil (kept m true (x ∷ xs)))
kept-append m (x ∷ xs) (y ∷ ys) = ground arith

pub concat-append : (xs ys : List Bytes) → concat (xs ++ ys) ≡ concat xs ++ concat ys
concat-append [] ys = refl
concat-append (x ∷ xs) ys =
    ap (λ (b : Bytes). x ++ b) (concat-append xs ys) ∙ sym (append_assoc x (concat xs) (concat ys))

pub stuffed-append : (xs ys : List Bytes) → stuffed (xs ++ ys) ≡ stuffed xs ++ stuffed ys
stuffed-append [] ys = refl
stuffed-append (x ∷ xs) ys =
    ap (λ (b : Bytes). stuff x ++ b) (stuffed-append xs ys)
    ∙ sym (append_assoc (stuff x) (stuffed xs) (stuffed ys))

-- what one frame does
first_sent :
    (m : Message) (s : Sending) (f : Bytes) {t : Sending}
    → send_frame m s f ≡ good t
    → (t.first ≡ false)
      × (t.output ≡ s.output ++ stuffed (kept m s.first (f ∷ [])))
      × StartsWith m s.first (f ∷ [])
unfolding send_frame
first_sent m s f {t} h = elim (Bool-cases s.first) [
  | inl e ↦
      rw e (ground (arith, append-nil (stuff f), append-nil s.output, equal_iff f m.omit_prefix))
  | inr e ↦ rw e (ground (arith, append-nil (stuff f)))
]

kept-false : (m : Message) (frames : List Bytes) → kept m false frames ≡ frames
kept-false m [] = refl
kept-false m (f ∷ frames) = refl

kept-cons :
    (m : Message) (first : Bool) (f : Bytes) (frames : List Bytes)
    → kept m first (f ∷ frames) ≡ kept m first (f ∷ []) ++ frames
kept-cons m true f frames = ground arith
kept-cons m false f frames = refl

StartsWith-cons :
    (m : Message) (first : Bool) (f : Bytes) (frames : List Bytes)
    → StartsWith m first (f ∷ [])
    → StartsWith m first (f ∷ frames)
StartsWith-cons m true f frames s = s
StartsWith-cons m false f frames s = s

-- A run of frames that are all accepted.
pub all_sent :
    (m : Message) (frames : List Bytes) (s : Sending) {t : Sending}
    → process_all (send_frame m) s frames ≡ good t
    → (t.first ≡ (s.first && is_empty frames))
      × (t.output ≡ s.output ++ stuffed (kept m s.first frames))
      × StartsWith m s.first frames
      × (is_empty frames ≡ true → t.headers ≡ s.headers)
unfolding process_all
all_sent m [] s h =
    let same = good-injective h in
    (
      ground (arith, ap (λ (u : Sending). u.first) same),
      sym (ap (λ (u : Sending). u.output) same) ∙ sym (append-nil s.output),
      tt,
      λ _. sym (ap (λ (u : Sending). u.headers) same),
    )
all_sent m (f ∷ frames) s {t} h =
    let (s', step, rest) = bind-eq-good (send_frame m s f) _ h in
    let (later, output, starts) = first_sent m s f step in
    let (first', output', _, _) = all_sent m frames s' rest in
    (
      ground arith,
      output'
          ∙ ap (λ (b : Bytes). b ++ stuffed (kept m s'.first frames)) output
          ∙ append_assoc s.output (stuffed (kept m s.first (f ∷ [])))
              (stuffed (kept m s'.first frames))
          ∙ ap (λ (b : Bytes). s.output ++ b)
              (ap (λ (gs : List Bytes). stuffed (kept m s.first (f ∷ [])) ++ stuffed gs)
                  (rw later (kept-false m frames))
                ∙ sym (stuffed-append (kept m s.first (f ∷ [])) frames)
                ∙ ap stuffed (sym (kept-cons m s.first f frames))),
      StartsWith-cons m s.first f frames starts,
      λ nothing. ground arith,
    )
