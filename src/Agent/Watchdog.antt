-- ===== src/Agent/Watchdog.antt =====
-- agent/peer_state_manager.go: `WatchdogIntervalTimer` over a `time.Timer`, whose channel holds one value
-- at most. A duration is the bit pattern of its nanoseconds as an int64; the jitter that `rand.Intn(4000)`
-- draws is an argument.
use diameterapi.Common.{
  ℕ, ◌+◌, ◌*◌, ◌%◌, ◌^◌, ◌<◌, ◌≤◌, ◌≡◌, refl, Bool, true, false, ltb, if◌then◌else◌, ◌⊎◌, inl, inr,
  Outcome, ok, panics, ok_injective, Bool-cases, subst, sym, ◌∙◌, arith,
}

-- `time.Timer`: whether it is running, whether a value waits in its channel, and its duration.
pub record Timer : Type 0 where
  pub active : Bool
  pub fired : Bool
  pub duration : ℕ

-- `NewTimer`
abbrev pub new_timer : ℕ → Timer
new_timer d = record { active = true; fired = false; duration = d }

-- `Stop`, which says whether the timer was running and leaves the channel as it is
abbrev pub stop : Timer → Timer × Bool
stop t = (record t { active = false }, t.active)

-- `Reset`
abbrev pub reset : ℕ → Timer → Timer
reset d t = record t { active = true; duration = d }

-- A running timer ends: a value is put into the channel if there is none.
abbrev pub expire : Timer → Timer
expire t = record t { active = false; fired = true }

-- A value is taken from the channel.
abbrev pub take_value : Timer → Timer
take_value t = record t { fired = false }

pub record WatchdogIntervalTimer : Type 0 where
  pub timer : Timer
  pub tw_floor_before_jitter : ℕ

unfoldable pub new_watchdog_interval_with_jitter : ℕ → ℕ → ℕ
new_watchdog_interval_with_jitter floor drawn = (floor + drawn * 10 ^ 6) % 2 ^ 64

unfoldable pub start_new_watchdog_interval_timer : ℕ → ℕ → Outcome WatchdogIntervalTimer
start_new_watchdog_interval_timer tw_init_in_seconds drawn =
    if ltb tw_init_in_seconds 6
    then panics
    else (let floor = tw_init_in_seconds * 10 ^ 9 % 2 ^ 64 in
        ok (record {
          timer = new_timer (new_watchdog_interval_with_jitter floor drawn);
          tw_floor_before_jitter = floor;
        }))

abbrev set_again : ℕ → WatchdogIntervalTimer → Timer → WatchdogIntervalTimer
set_again drawn t timer = record t {
  timer = reset (new_watchdog_interval_with_jitter t.tw_floor_before_jitter drawn) timer;
}

-- `Restart` and `StopAndRestart` return, panic, or wait for ever for a value.
pub data Restarted : Type 0 where
  restarted : WatchdogIntervalTimer → Restarted
  panicked waits : Restarted

unfoldable pub restart : ℕ → WatchdogIntervalTimer → Restarted
unfolding set_again
restart drawn t =
    let (timer, was_active) = stop t.timer in
    if was_active then panicked else restarted (set_again drawn t timer)

unfoldable pub stop_and_restart : ℕ → WatchdogIntervalTimer → Restarted
unfolding set_again
stop_and_restart drawn t =
    let (timer, was_active) = stop t.timer in
    if was_active
    then restarted (set_again drawn t timer)
    else if timer.fired
    then restarted (set_again drawn t (take_value timer))
    else waits

-- The timers that the loop of `NewRun` may come to: it starts with a new one; a running timer expires at
-- any moment; the case of a message stops and restarts it; and its own case, ready when there is a value,
-- takes the value and restarts it.
pub data IsReached (tw_init_in_seconds : ℕ) : WatchdogIntervalTimer → Type 0 where
  begins :
      (drawn : ℕ) (t : WatchdogIntervalTimer)
      → drawn < 4000
      → start_new_watchdog_interval_timer tw_init_in_seconds drawn ≡ ok t
      → IsReached tw_init_in_seconds t
  expires :
      (t : WatchdogIntervalTimer)
      → IsReached tw_init_in_seconds t
      → t.timer.active ≡ true
      → IsReached tw_init_in_seconds (record t { timer = expire t.timer })
  takes_message :
      (drawn : ℕ) (t t' : WatchdogIntervalTimer)
      → IsReached tw_init_in_seconds t
      → drawn < 4000
      → stop_and_restart drawn t ≡ restarted t'
      → IsReached tw_init_in_seconds t'
  takes_expiry :
      (drawn : ℕ) (t t' : WatchdogIntervalTimer)
      → IsReached tw_init_in_seconds t
      → drawn < 4000
      → t.timer.fired ≡ true
      → restart drawn (record t { timer = take_value t.timer }) ≡ restarted t'
      → IsReached tw_init_in_seconds t'

-- The timer runs or has a value to take, not both, and its durations are those of the jitter.
record IsKept (n : ℕ) (t : WatchdogIntervalTimer) : Type 0 where
  one :
      (t.timer.active ≡ true × t.timer.fired ≡ false)
      ⊎ (t.timer.active ≡ false × t.timer.fired ≡ true)
  floor : t.tw_floor_before_jitter ≡ n * 10 ^ 9
  low : n * 10 ^ 9 ≤ t.timer.duration
  high : t.timer.duration < n * 10 ^ 9 + 4 * 10 ^ 9

set_again-IsKept :
    (n drawn : ℕ) (t : WatchdogIntervalTimer) (timer : Timer)
    → n < 9 * 10 ^ 9
    → drawn < 4000
    → t.tw_floor_before_jitter ≡ n * 10 ^ 9
    → timer.fired ≡ false
    → IsKept n (set_again drawn t timer)
unfolding new_watchdog_interval_with_jitter
set_again-IsKept n drawn t timer small d f e = record {
  one = inl (refl, e);
  floor = f;
  low = omega (arith, f);
  high = omega (arith, f);
}

begins-IsKept :
    (n drawn : ℕ) (t : WatchdogIntervalTimer)
    → n < 9 * 10 ^ 9
    → drawn < 4000
    → start_new_watchdog_interval_timer n drawn ≡ ok t
    → IsKept n t
unfolding start_new_watchdog_interval_timer new_watchdog_interval_with_jitter
begins-IsKept n drawn t small d e = elim (Bool-cases (ltb n 6)) [
  | inl low ↦ cc (rw low at e)
  | inr high ↦ subst (IsKept n) (ok_injective (rw high at e)) (record {
    one = inl (refl, refl);
    floor = omega arith;
    low = omega arith;
    high = omega arith;
  })
]

restarted_injective : {t t' : WatchdogIntervalTimer} → restarted t ≡ restarted t' → t ≡ t'
restarted_injective e = cc

stop_and_restart-IsKept :
    (n drawn : ℕ) (t : WatchdogIntervalTimer)
    → n < 9 * 10 ^ 9
    → drawn < 4000
    → IsKept n t
    → (t' : WatchdogIntervalTimer) × (stop_and_restart drawn t ≡ restarted t') × IsKept n t'
unfolding stop_and_restart
stop_and_restart-IsKept n drawn t small d k = elim k.one [
  | inl (a, f) ↦ (
    set_again drawn t (stop t.timer).0,
    rw a refl,
    set_again-IsKept n drawn t (stop t.timer).0 small d k.floor f,
  )
  | inr (a, f) ↦ (
    set_again drawn t (take_value (stop t.timer).0),
    rw (a, f) refl,
    set_again-IsKept n drawn t (take_value (stop t.timer).0) small d k.floor refl,
  )
]

restart-IsKept :
    (n drawn : ℕ) (t : WatchdogIntervalTimer)
    → n < 9 * 10 ^ 9
    → drawn < 4000
    → IsKept n t
    → t.timer.fired ≡ true
    → (t' : WatchdogIntervalTimer) × (restart drawn (record t { timer = take_value t.timer })
        ≡ restarted t')
      × IsKept n t'
unfolding restart
restart-IsKept n drawn t small d k f = elim k.one [
  | inl (_, g) ↦ cc
  | inr (a, _) ↦ (
    set_again drawn t (take_value (stop t.timer).0),
    rw a refl,
    set_again-IsKept n drawn t (take_value (stop t.timer).0) small d k.floor refl,
  )
]

IsReached-IsKept : (n : ℕ) (t : WatchdogIntervalTimer) → n < 9 * 10 ^ 9 → IsReached n t → IsKept n t
IsReached-IsKept n t small (begins drawn _ d e) = begins-IsKept n drawn t small d e
IsReached-IsKept n _ small (expires t r a) =
    let k = IsReached-IsKept n t small r in
    record { one = inr (refl, refl); floor = k.floor; low = k.low; high = k.high }
IsReached-IsKept n _ small (takes_message drawn t t' r d e) =
    let (t'', p, k) = stop_and_restart-IsKept n drawn t small d (IsReached-IsKept n t small r) in
    subst (IsKept n) (restarted_injective (sym p ∙ e)) k
IsReached-IsKept n _ small (takes_expiry drawn t t' r d f e) =
    let (t'', p, k) = restart-IsKept n drawn t small d (IsReached-IsKept n t small r) f in
    subst (IsKept n) (restarted_injective (sym p ∙ e)) k

-- In every state that the timer of the loop of `NewRun` comes to, whatever the jitter, its duration is
-- between the given seconds and four more, `StopAndRestart` does not wait, and either there is no value
-- to take or `Restart` does not panic behind the taking of it. The seconds are below 9 * 10 ^ 9.
pub watchdog_interval_timer_lem :
    (n drawn : ℕ) (t : WatchdogIntervalTimer)
    → n < 9 * 10 ^ 9
    → drawn < 4000
    → IsReached n t
    → (n * 10 ^ 9 ≤ t.timer.duration)
      × (t.timer.duration < n * 10 ^ 9 + 4 * 10 ^ 9)
      × ((t' : WatchdogIntervalTimer) × (stop_and_restart drawn t ≡ restarted t'))
      × ((t.timer.fired ≡ false)
          ⊎ ((t' : WatchdogIntervalTimer) × (restart drawn (record t { timer = take_value t.timer })
                ≡ restarted t')))
watchdog_interval_timer_lem n drawn t small d r =
    let k = IsReached-IsKept n t small r in
    let (t', p, _) = stop_and_restart-IsKept n drawn t small d k in
    (
      k.low,
      k.high,
      (t', p),
      elim k.one [
        | inl (_, f) ↦ inl f
        | inr (_, f) ↦ let (t'', q, _) = restart-IsKept n drawn t small d k f in inr (t'', q)
      ],
    )
