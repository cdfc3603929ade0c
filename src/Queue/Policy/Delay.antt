-- ===== src/Queue/Policy/Delay.antt =====
-- The retry delay of a valid policy.
use rustymail.Base.{
  ℕ, zero, suc, ◌+◌, ◌-◌, ◌*◌, ◌/◌, ◌%◌, ◌≤◌, ◌<◌, ◌≡◌, false, not, List, [], ◌∷◌, arith, within,
  length, any,
}
use rustymail.Bytes.{Bytes}
use rustymail.Queue.Rows.{ok}
use rustymail.Queue.Policy.{QueuePolicy, validate, get_or, least, delay_ms}

get_or_bounds :
    (xs : List ℕ) (i : ℕ)
    → any (λ n. not (within 1 86400 n)) xs ≡ false
    → i < length xs
    → (1 ≤ get_or xs i 0) × (get_or xs i 0 ≤ 86400)
get_or_bounds [] i h lt = elim lt [ ]
get_or_bounds (x ∷ xs) zero h lt = ground arith
get_or_bounds (x ∷ xs) (suc i) h lt = get_or_bounds xs i (ground arith) (omega arith)

-- the facts about a valid policy that the delay rests on
valid_schedule :
    (p : QueuePolicy)
    → validate p ≡ ok tt
    → (0 < length p.retry_seconds)
      × (any (λ n. not (within 1 86400 n)) p.retry_seconds ≡ false)
      × (p.jitter_percent ≤ 50)
unfolding validate
valid_schedule p h = ground arith

half_spread : (base percent : ℕ) → percent ≤ 50 → 2 * (base * percent / 100) ≤ base
half_spread base percent h =
    let scaled : base * percent ≤ base * 50 = grind arith in omega (arith, scaled)

jittered_bounds :
    (base spread r : ℕ)
    → 2 * spread ≤ base
    → (base ≤ base + r % (spread + 1)) × (2 * (base + r % (spread + 1)) ≤ 3 * base)
jittered_bounds base spread r h = omega arith

index_in_range : (attempts n : ℕ) → 0 < n → least (attempts - 1) (n - 1) < n
index_in_range attempts n h = ground arith

-- Under a valid policy the delay before the next attempt is the scheduled one, in milliseconds, or up
-- to half as much again; the schedule is entered at the count of attempts and stays at its last
-- entry. So it is between a second and 36 hours.
pub delay_ms_bounds :
    (random : Bytes → ℕ → ℕ) (p : QueuePolicy) (id : Bytes) (attempts : ℕ)
    → validate p ≡ ok tt
    → let base =
        get_or p.retry_seconds (least (attempts - 1) (length p.retry_seconds - 1)) 0 * 1000 in
      (base ≤ delay_ms random p id attempts)
      × (2 * delay_ms random p id attempts ≤ 3 * base)
      × (1000 ≤ delay_ms random p id attempts)
      × (delay_ms random p id attempts ≤ 129600000)
unfolding delay_ms
delay_ms_bounds random p id attempts h =
    let (some_entry, bounded, half) = valid_schedule p h in
    let index = least (attempts - 1) (length p.retry_seconds - 1) in
    let entry = get_or p.retry_seconds index 0 in
    let (low, high) =
      get_or_bounds p.retry_seconds index bounded
        (index_in_range attempts (length p.retry_seconds) some_entry) in
    let (least_delay, most) =
      jittered_bounds (entry * 1000) (entry * 1000 * p.jitter_percent / 100) (random id attempts)
        (half_spread (entry * 1000) p.jitter_percent half) in
    (least_delay, most, omega (arith, low, least_delay), omega (arith, high, most))
