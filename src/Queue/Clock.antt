-- ===== src/Queue/Clock.antt =====
-- crates/store/src/queue.rs: `QueueRuntime::now`, which refuses a wall clock that jumped.
pub mod Steady
use rustymail.Base.{ℕ, ◌+◌, ◌-◌, Bool, true, false, ◌||◌, Option, none, some, ltb, if◌then◌else◌}
use rustymail.Queue.Rows.{QueueRuntime, Result, ok, err, invalid_input, clock_changed}

-- `runtime.now_ms()`
abbrev pub now_ms : Option ℕ → Result ℕ
now_ms none = err invalid_input
now_ms (some wall) = ok wall

-- the distance of two numbers
abbrev pub distance : ℕ → ℕ → ℕ
distance a b = (a - b) + (b - a)

abbrev went_back : Option ℕ → ℕ → Bool
went_back none wall = false
went_back (some old) wall = ltb wall old

-- the test on the clock that was read first
unfoldable pub jumped : Option ℕ → ℕ × ℕ → ℕ → ℕ → Bool
jumped last_wall (old_wall, old_mono) wall mono =
    went_back last_wall wall
    || ltb mono old_mono
    || ltb 60000 (distance (wall + old_mono) (old_wall + mono))

-- behind the two readings of the clocks
unfoldable pub settle : QueueRuntime → ℕ → QueueRuntime × Result ℕ
settle q wall =
    if q.clock_changed
    then (q, err clock_changed)
    else (record q { last_wall = some wall }, ok wall)

unfoldable pub check_clock : QueueRuntime → Option (ℕ × ℕ) → ℕ → ℕ → QueueRuntime
unfolding jumped
check_clock q none wall mono = record q { clock = some (wall, mono) }
check_clock q (some first) wall mono =
    if jumped q.last_wall first wall mono then record q { clock_changed = true } else q

unfoldable pub now : QueueRuntime → Option ℕ → ℕ → QueueRuntime × Result ℕ
unfolding settle check_clock
now q none mono = (q, err invalid_input)
now q (some wall) mono = settle (check_clock q q.clock wall mono) wall
