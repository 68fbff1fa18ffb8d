-- ===== src/Throttle/Sleep/Laws.antt =====
-- Termination, interruption and emissions of the sleeps of agent_runner/_throttle.py.
use cli_agent_runner.Clock.{ticks}
use cli_agent_runner.Throttle.Bounds.{ladder_agrees}
use cli_agent_runner.Throttle.Active.{TransientErrorState}
use cli_agent_runner.Throttle.Scan.{Log}
use cli_agent_runner.Throttle.Sleep.{
  Emission, Readings, SleepResult, Slice, adjusted, apply_back_off, back_off_cap_s,
  back_off_jitter_max_s, back_off_sleep, backoff_capped, completed, defensive, interrupted,
  interruptible_sleep, raw_reset, sleeping, wants_stop, optional, breadcrumb, recovery,
}
use cli_agent_runner.Throttle.Ladder.{BackoffCapped, back_off_default}
use cli_agent_runner.Prelude.{
  ◌*◌, ◌+◌, ◌++◌, ◌-◌, Bool, List, Option, [], any, arith, if◌then◌else◌, false, min, none, refl,
  some, true, ◌||◌, ℕ, ◌↔◌, ◌∷◌, ◌≡◌, ◌≢◌, ◌≤◌,
}

-- What a slice takes off the time that remains.
abbrev pub credit : Bool → ℕ → Slice → ℕ
credit true chunk t = t.elapsed
credit false chunk t = chunk

abbrev pub slept : Bool → ℕ → List Slice → ℕ
slept live chunk [] = 0
slept live chunk (t ∷ ts) = credit live chunk t + slept live chunk ts

-- A sleep that nothing interrupts, and that has no deadline, completes exactly when the time of
-- its slices adds up to the whole, also under a live listener that wakes early.
pub sleep-completed_iff :
    (live : Bool) (chunk total : ℕ) (ts : List Slice)
    → any wants_stop ts ≡ false
    → (interruptible_sleep live none chunk total ts ≡ completed) ↔ (total ≤ slept live chunk ts)
unfolding interruptible_sleep
sleep-completed_iff live chunk total [] h = ground arith
sleep-completed_iff true chunk total (t ∷ ts) h =
    ground (arith, sleep-completed_iff true chunk (total - t.elapsed) ts)
sleep-completed_iff false chunk total (t ∷ ts) h =
    ground (arith, sleep-completed_iff false chunk (total - min chunk total) ts)

-- A sleep is interrupted only if one of its slices saw a request to stop.
pub sleep_interrupted :
    (live : Bool) (deadline : Option ℕ) (chunk total : ℕ) (ts : List Slice)
    → interruptible_sleep live deadline chunk total ts ≡ interrupted
    → any wants_stop ts ≡ true
unfolding interruptible_sleep
sleep_interrupted live deadline chunk total [] h = absurd (ground arith)
sleep_interrupted live deadline chunk total (t ∷ ts) h = ground (
  arith,
  sleep_interrupted live deadline chunk (total - (if live then t.elapsed else min chunk total)) ts,
)

-- With no live listener the loop ends: slices that cover the total are enough, whatever they see.
pub sleep_ends :
    (deadline : Option ℕ) (chunk total : ℕ) (ts : List Slice)
    → total ≤ slept false chunk ts
    → interruptible_sleep false deadline chunk total ts ≢ sleeping
unfolding interruptible_sleep
sleep_ends deadline chunk total [] h = ground arith
sleep_ends deadline chunk total (t ∷ ts) h =
    ground (arith, sleep_ends deadline chunk (total - min chunk total) ts)

back_off_sleep-le : (deadline now : ℕ) → back_off_sleep deadline now ≤ back_off_cap_s * ticks
unfolding back_off_sleep
back_off_sleep-le deadline now = ground arith

-- A back-off ends once its slices cover the eight hours of its cap, whatever the throttle, the log
-- and the slices say.
pub back_off_ends :
    (log : Log) (throttle : TransientErrorState) (clock : Readings) (jitter chunk : ℕ)
    (slices : List Slice)
    → back_off_cap_s * ticks ≤ slept false chunk slices
    → (apply_back_off log throttle clock jitter chunk slices).result ≢ sleeping
unfolding apply_back_off
back_off_ends log throttle clock jitter chunk slices h =
    let deadline = (adjusted log throttle clock).applied_reset_at * ticks + jitter in
    sleep_ends (some deadline) chunk _ slices
      (omega (arith, back_off_sleep-le deadline clock.at_request))

abbrev pub is_breadcrumb : Emission → Bool
is_breadcrumb (backoff_capped e) = false
is_breadcrumb (recovery c a s) = true

any-append {ℓ} :
    {A : Type ℓ} (p : A → Bool) (xs ys : List A) → any p (xs ++ ys) ≡ (any p xs || any p ys)
any-append p [] ys = refl
any-append p (x ∷ xs) ys = ground (arith, any-append p xs ys)

optional_silent : (e : Option BackoffCapped) → any is_breadcrumb (optional e) ≡ false
unfolding optional
optional_silent e = ground arith

defensive_silent :
    (throttle : TransientErrorState) (deadline now : ℕ)
    → any is_breadcrumb (defensive throttle deadline now) ≡ false
unfolding defensive
defensive_silent throttle deadline now = ground arith

breadcrumb_iff :
    (r : SleepResult) (throttle : TransientErrorState) (clock : Readings)
    → (any is_breadcrumb (breadcrumb r throttle clock) ≡ true) ↔ (r ≡ completed)
unfolding breadcrumb
breadcrumb_iff r throttle clock = ground arith

-- The recovered breadcrumb is emitted exactly when the back-off slept to its end.
pub back_off_breadcrumb_iff :
    (log : Log) (throttle : TransientErrorState) (clock : Readings) (jitter chunk : ℕ)
    (slices : List Slice)
    → let b = apply_back_off log throttle clock jitter chunk slices in
      (any is_breadcrumb b.emitted ≡ true) ↔ (b.result ≡ completed)
unfolding apply_back_off
back_off_breadcrumb_iff log throttle clock jitter chunk slices =
    let adj = adjusted log throttle clock in
    let deadline = adj.applied_reset_at * ticks + jitter in
    let mid = defensive throttle deadline clock.at_request in
    let r =
      interruptible_sleep false (some deadline) chunk (back_off_sleep deadline clock.at_request)
        slices in
    rw
      (
        any-append is_breadcrumb (optional adj.emitted) (mid ++ breadcrumb r throttle clock),
        any-append is_breadcrumb mid (breadcrumb r throttle clock),
        optional_silent adj.emitted,
        defensive_silent throttle deadline clock.at_request,
      )
      (breadcrumb_iff r throttle clock)

-- For an estimated class, on a clock that does not step back and with a jitter in its range, the
-- defensive cap is never reached.
pub estimated_not_defensive :
    (log : Log) (throttle : TransientErrorState) (clock : Readings) (jitter base : ℕ)
    → back_off_default throttle.classification ≡ some base
    → clock.at_adjust ≤ clock.at_request
    → jitter ≤ back_off_jitter_max_s * ticks
    → defensive throttle
        ((adjusted log throttle clock).applied_reset_at * ticks + jitter)
        clock.at_request
      ≡ []
unfolding defensive adjusted
estimated_not_defensive log throttle clock jitter base h le j = ground (
  arith,
  ladder_agrees throttle.classification throttle.agent log (raw_reset log throttle clock.at_raw)
      clock.at_adjust base h,
)
