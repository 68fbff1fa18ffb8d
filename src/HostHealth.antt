-- ===== src/HostHealth.antt =====
-- agent_runner/host_health.py: what a memory sample says, by a ladder of signals.
--
-- The stall figures and their thresholds are in hundredths of a percent, the kernel's resolution. The
-- message of a verdict is a text made of its context and is left out. A rate is the fraction of the
-- bytes grown over the ticks elapsed; its threshold is in hundredths of a MB per minute.
pub mod Tests
pub mod Ladder
use cli_agent_runner.Clock.{ticks}
use cli_agent_runner.Prelude.{
  ◌&&◌, ◌*◌, Bool, Option, diff, if◌then◌else◌, false, leb, ltb, negsuc, none, not, pos, some, true,
  ℕ, ℤ,
}

pub data Severity : Type 0 where
  warning critical : Severity

pub data Signal : Type 0 where
  psi swap_out_rate combined_low cgroup_growth_rate : Signal

pub record Rate : Type 0 where
  pub bytes : ℕ
  pub elapsed : ℕ

pub data Context : Type 0 where
  psi_context : (psi_some psi_full : ℕ) → Context
  swap_context : (delta : ℤ) (mem_free : Option ℕ) → Context
  low_context : (mem_free mem_available : ℕ) → Context
  growth_context : (rate : Rate) (threshold : ℕ) → Context

pub record Pressure : Type 0 where
  pub severity : Severity
  pub signal : Signal
  pub context : Context

-- What the ladder reads of `metrics.sample()`; `none` is a missing key, or None.
pub record Sample : Type 0 where
  pub psi_some : Option ℕ
  pub psi_full : Option ℕ
  pub swap_sout : Option ℕ
  pub mem_free_mb : Option ℕ
  pub mem_available_mb : Option ℕ

-- The fields of `MonitorHostHealthConfig` that serve reads.
pub record HealthConfig : Type 0 where
  pub full_critical : ℕ
  pub some_warning : ℕ
  pub swap_out_noise_floor_mb : ℕ
  pub free_low_mb : ℕ
  pub avail_min_mb : ℕ
  pub critical_consecutive_samples : ℕ
  pub in_round_terminate : Bool
  pub in_round_nudge : Bool
  pub growth_rate_warning : ℕ
  pub warning_consecutive_samples : ℕ

unfoldable pub swap_sout_delta : Sample → Sample → Option ℤ
swap_sout_delta sample prev = elim sample.swap_sout [
  | none ↦ none
  | some cur ↦ elim prev.swap_sout [ none ↦ none | some before ↦ some (diff cur before) ]
]

abbrev pub known : Option ℕ → Bool
known none = false
known (some n) = true

unfoldable pub signal_available : Sample → Sample → Bool
unfolding swap_sout_delta
signal_available sample prev =
    if known sample.psi_some then true else elim (swap_sout_delta sample prev) [
      | some delta ↦ true
      | none ↦ known sample.mem_free_mb && known sample.mem_available_mb
    ]

abbrev pub or_zero : Option ℕ → ℕ
or_zero none = 0
or_zero (some n) = n

-- The tiers of `memory_pressure`: where the stall figures are readable, nothing else is asked.
unfoldable pub psi_tier : HealthConfig → ℕ → ℕ → Option Pressure
psi_tier cfg psi_some psi_full =
    let context = psi_context psi_some psi_full in
    if leb cfg.full_critical psi_full
    then some (record { severity = critical; signal = psi; context = context })
    else if leb cfg.some_warning psi_some
    then some (record { severity = warning; signal = psi; context = context })
    else none

abbrev pub above : ℤ → ℕ → Bool
above (pos d) n = ltb n d
above (negsuc d) n = false

abbrev pub below : Option ℕ → ℕ → Bool
below none n = false
below (some m) n = ltb m n

unfoldable pub swap_tier : HealthConfig → Option ℤ → Option ℕ → Option Pressure
swap_tier cfg none mem_free = none
swap_tier cfg (some delta) mem_free =
    if not (above delta (cfg.swap_out_noise_floor_mb * 1024 * 1024))
    then none
    else if below mem_free cfg.free_low_mb
    then some (record {
      severity = critical;
      signal = swap_out_rate;
      context = swap_context delta mem_free;
    })
    else some
        (record { severity = warning; signal = swap_out_rate; context = swap_context delta none })

unfoldable pub low_tier : HealthConfig → Option ℕ → Option ℕ → Option Pressure
low_tier cfg (some mem_free) (some mem_avail) =
    if ltb mem_free cfg.free_low_mb && ltb mem_avail cfg.avail_min_mb
    then some (record {
      severity = warning;
      signal = combined_low;
      context = low_context mem_free mem_avail;
    })
    else none
low_tier cfg _ _ = none

-- Where the swap tier gives no evidence, the combined-low tier is asked.
unfoldable pub swap_then_low : HealthConfig → Option ℤ → Option ℕ → Option ℕ → Option Pressure
unfolding swap_tier low_tier
swap_then_low cfg delta mem_free mem_avail = elim (swap_tier cfg delta mem_free) [
  | some p ↦ some p
  | none ↦ low_tier cfg mem_free mem_avail
]

unfoldable pub memory_pressure : Sample → Sample → HealthConfig → Option Pressure
unfolding psi_tier swap_then_low swap_sout_delta
memory_pressure sample prev cfg = elim sample.psi_some [
  | some p ↦ psi_tier cfg p (or_zero sample.psi_full)
  | none ↦
      swap_then_low cfg (swap_sout_delta sample prev) sample.mem_free_mb sample.mem_available_mb
]

abbrev pub cache_proof : Signal → Bool
cache_proof psi = true
cache_proof swap_out_rate = true
cache_proof _ = false

unfoldable pub configured_gate_inert : Sample → Sample → HealthConfig → Bool
unfolding memory_pressure
configured_gate_inert sample prev cfg = elim sample.mem_available_mb [
  | none ↦ false
  | some avail ↦
      if ltb avail cfg.avail_min_mb
      then false
      else elim (memory_pressure sample prev cfg) [ none ↦ false | some p ↦ cache_proof p.signal ]
]

-- `rate_mb_per_min >= warn`, multiplied out.
unfoldable pub rate_reaches : Rate → ℕ → Bool
rate_reaches rate warn = leb (warn * 1024 * 1024 * rate.elapsed) (rate.bytes * 60 * ticks * 100)

unfoldable pub cgroup_growth_rate_pressure : Option Rate → HealthConfig → Option Pressure
unfolding rate_reaches
cgroup_growth_rate_pressure none cfg = none
cgroup_growth_rate_pressure (some rate) cfg =
    if rate_reaches rate cfg.growth_rate_warning
    then some (record {
      severity = warning;
      signal = cgroup_growth_rate;
      context = growth_context rate cfg.growth_rate_warning;
    })
    else none

-- `_pressure_is_critical` of agent_runner/cli/_serve_round.py.
unfoldable pub pressure_is_critical : Option Pressure → Bool
pressure_is_critical none = false
pressure_is_critical (some p) = elim p.severity [ warning ↦ false | critical ↦ true ]
