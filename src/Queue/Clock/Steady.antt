-- ===== src/Queue/Clock/Steady.antt =====
-- What the guarded clock of the queue returns over a sequence of readings.
use rustymail.Base.{
  ℕ, ◌+◌, ◌≤◌, ◌≡◌, refl, sym, subst, ap, inl, inr, false, List, [], ◌∷◌, Option, none, some, arith,
  Bool-cases,
}
use rustymail.Queue.Rows.{QueueRuntime, Result, ok, err}
use rustymail.Queue.Clock.{distance, jumped, settle, check_clock, now}

-- The times returned for readings of the wall clock and the monotonic clock, with the latter.
abbrev kept : Result ℕ → ℕ → List (ℕ × ℕ) → List (ℕ × ℕ)
kept (err e) mono rest = rest
kept (ok t) mono rest = (t, mono) ∷ rest

unfoldable pub times : QueueRuntime → List (Option ℕ × ℕ) → List (ℕ × ℕ)
unfolding now
times q [] = []
times q ((wall, mono) ∷ readings) =
    kept (now q wall mono).1 mono (times (now q wall mono).0 readings)

-- From `low` on the times do not decrease, and each is within a minute of what the monotonic clock
-- makes of the first pair of readings.
abbrev pub IsSteady : ℕ × ℕ → ℕ → List (ℕ × ℕ) → Type 0
IsSteady first low [] = Unit
IsSteady (w, m) low ((t, mono) ∷ rest) =
    (low ≤ t) × (distance (t + m) (w + mono) ≤ 60000) × IsSteady (w, m) t rest

-- The clock has been read, first at `first`, last with the wall clock at `low`.
abbrev IsRead : QueueRuntime → ℕ × ℕ → ℕ → Type 0
IsRead q first low = (q.clock ≡ some first) × (q.last_wall ≡ some low)

-- A reading that is refused leaves the marks, one that is returned moves the last.
abbrev Reading : ℕ × ℕ → ℕ → ℕ → QueueRuntime × Result ℕ → Type 0
Reading first low mono (q, err e) = IsRead q first low
Reading (w, m) low mono (q, ok t) =
    (low ≤ t) × (distance (t + m) (w + mono) ≤ 60000) × IsRead q (w, m) t

now-Reading_known :
    (q : QueueRuntime) (w m low wall mono : ℕ)
    → IsRead q (w, m) low
    → Reading (w, m) low mono (settle (check_clock q (some (w, m)) wall mono) wall)
unfolding settle check_clock jumped
now-Reading_known q w m low wall mono (clock, last) =
    elim (Bool-cases (jumped q.last_wall (w, m) wall mono)) [
      | inl e ↦ rw e (clock, last)
      | inr e ↦ rw e (elim (Bool-cases q.clock_changed) [
        | inl stopped ↦ rw stopped (clock, last)
        | inr running ↦
            rw running (
              let calm = rw last at e in
              (ground (arith, calm), ground (arith, calm), (clock, refl)))
      ])
    ]

now-Reading :
    (q : QueueRuntime) (w m low : ℕ) (wall : Option ℕ) (mono : ℕ)
    → IsRead q (w, m) low
    → Reading (w, m) low mono (now q wall mono)
unfolding now
now-Reading q w m low none mono h = h
now-Reading q w m low (some wall) mono h =
    subst
      (λ (o : Option (ℕ × ℕ)). Reading (w, m) low mono (settle (check_clock q o wall mono) wall))
      (sym h.0) (now-Reading_known q w m low wall mono h)

times-IsSteady :
    (readings : List (Option ℕ × ℕ)) (q : QueueRuntime) (w m low : ℕ)
    → IsRead q (w, m) low
    → IsSteady (w, m) low (times q readings)
unfolding times
times-IsSteady [] q w m low h = tt
times-IsSteady ((wall, mono) ∷ readings) q w m low h =
    step (now q wall mono) (now-Reading q w m low wall mono h)
      (λ q' low' h'. times-IsSteady readings q' w m low' h')
  where
    step :
        (r : QueueRuntime × Result ℕ)
        → Reading (w, m) low mono r
        → ((q' : QueueRuntime) (low' : ℕ)
            → IsRead q' (w, m) low'
            → IsSteady (w, m) low' (times q' readings))
        → IsSteady (w, m) low (kept r.1 mono (times r.0 readings))
    step (q', err e) h k = k q' low h
    step (q', ok t) h k = (h.0, h.1, k q' t h.2)

-- The runtime of a store that has just been opened.
abbrev pub IsFresh : QueueRuntime → Type 0
IsFresh q = (q.clock ≡ none) × (q.last_wall ≡ none) × (q.clock_changed ≡ false)

first_reading :
    (q : QueueRuntime) (w m : ℕ)
    → IsFresh q
    → ((now q (some w) m).1 ≡ ok w) × IsRead (now q (some w) m).0 (w, m) w
unfolding now settle check_clock
first_reading q w m (clock, last, running) = simp (clock, running) (refl, (refl, refl))

-- A newly opened store that reads the wall clock at `w` and the monotonic clock at `m` returns `w`.
-- However the clocks go on, the times that it returns later do not decrease from `w`, and none is more
-- than a minute away from `w` and the monotonic time since `m`.
pub times-opened :
    (q : QueueRuntime) (w m : ℕ) (readings : List (Option ℕ × ℕ))
    → IsFresh q
    → (rest : List (ℕ × ℕ)) × (times q ((some w, m) ∷ readings) ≡ (w, m) ∷ rest)
      × IsSteady (w, m) w rest
unfolding times
times-opened q w m readings h =
    let (returned, read) = first_reading q w m h in
    let rest = times (now q (some w) m).0 readings in
    (
      rest,
      ap (λ (r : Result ℕ). kept r m rest) returned,
      times-IsSteady readings (now q (some w) m).0 w m w read,
    )
