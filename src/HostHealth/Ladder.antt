-- ===== src/HostHealth/Ladder.antt =====
-- What the verdicts of agent_runner/host_health.py mean.
use cli_agent_runner.Prelude.{
  arith, some, true, ◌≡◌, ◌*◌, none, ℕ, ℤ, ◌↔◌, ◌≤◌, ◌&&◌, Bool, Option, Option-cases,
  if◌then◌else◌, false, inl, inr, leb, negsuc, pos, refl,
}
use cli_agent_runner.HostHealth.{
  HealthConfig, Pressure, Sample, low_tier, memory_pressure, signal_available, swap_tier, above,
  configured_gate_inert, known, or_zero, psi_tier, swap_sout_delta, below, cache_proof,
  pressure_is_critical, swap_then_low,
}

-- A verdict is given only where a tier of the ladder has a usable reading.
pub pressure-available :
    (sample prev : Sample) (cfg : HealthConfig) (p : Pressure)
    → memory_pressure sample prev cfg ≡ some p
    → signal_available sample prev ≡ true
unfolding memory_pressure signal_available swap_then_low swap_tier low_tier
pressure-available sample prev cfg p h = ground arith

abbrev pub swaps_above : Option ℤ → ℕ → Bool
swaps_above none n = false
swaps_above (some delta) n = above delta n

psi_critical :
    (cfg : HealthConfig) (p f : ℕ)
    → pressure_is_critical (psi_tier cfg p f) ≡ leb cfg.full_critical f
unfolding psi_tier pressure_is_critical
psi_critical cfg p f = ground arith

swap_critical :
    (cfg : HealthConfig) (delta : Option ℤ) (free avail : Option ℕ)
    → pressure_is_critical (swap_then_low cfg delta free avail) ≡ (
        swaps_above delta (cfg.swap_out_noise_floor_mb * 1024 * 1024) && below free cfg.free_low_mb)
unfolding swap_then_low swap_tier low_tier pressure_is_critical
swap_critical cfg none none avail = refl
swap_critical cfg none (some f) none = refl
swap_critical cfg none (some f) (some a) = ground arith
swap_critical cfg (some (pos d)) free avail = ground arith
swap_critical cfg (some (negsuc d)) none avail = refl
swap_critical cfg (some (negsuc d)) (some f) none = refl
swap_critical cfg (some (negsuc d)) (some f) (some a) = ground arith

-- The verdict is critical exactly where every task stalls beyond the bar, or, on a host without stall
-- figures, where swap-out rises above the noise floor while hardly any memory is free.
pub critical_iff :
    (sample prev : Sample) (cfg : HealthConfig)
    → pressure_is_critical (memory_pressure sample prev cfg) ≡ (
        if known sample.psi_some
        then leb cfg.full_critical (or_zero sample.psi_full)
        else swaps_above (swap_sout_delta sample prev) (cfg.swap_out_noise_floor_mb * 1024 * 1024)
          && below sample.mem_free_mb cfg.free_low_mb)
unfolding memory_pressure
critical_iff sample prev cfg = elim (Option-cases sample.psi_some) [
  | inl e ↦
      rw (e)
        (swap_critical cfg (swap_sout_delta sample prev) sample.mem_free_mb sample.mem_available_mb)
  | inr (p, e) ↦ rw (e) (psi_critical cfg p (or_zero sample.psi_full))
]

cache_proof_where_available :
    (sample prev : Sample) (cfg : HealthConfig) (avail : ℕ) (p : Pressure)
    → sample.mem_available_mb ≡ some avail
    → cfg.avail_min_mb ≤ avail
    → memory_pressure sample prev cfg ≡ some p
    → cache_proof p.signal ≡ true
unfolding memory_pressure psi_tier swap_then_low swap_tier low_tier
cache_proof_where_available sample prev cfg avail p known_avail high h = ground arith

-- The configured gate is inert exactly where the available memory is at or above its threshold
-- while the ladder gives any verdict at all.
pub gate_inert_iff :
    (sample prev : Sample) (cfg : HealthConfig)
    → (configured_gate_inert sample prev cfg ≡ true) ↔ (
        (avail : ℕ) × (sample.mem_available_mb ≡ some avail)
        × (cfg.avail_min_mb ≤ avail)
        × (p : Pressure) × (memory_pressure sample prev cfg ≡ some p))
unfolding configured_gate_inert
gate_inert_iff sample prev cfg = (
  λ h. elim (Option-cases sample.mem_available_mb) [
    | inl e ↦ absurd (ground arith)
    | inr (avail, e) ↦ elim (Option-cases (memory_pressure sample prev cfg)) [
      | inl m ↦ absurd (ground arith)
      | inr (p, m) ↦ (avail, e, ground arith, p, m)
    ]
  ],
  λ (avail, e, high, p, m).
      ground (arith, cache_proof_where_available sample prev cfg avail p e high m),
)
