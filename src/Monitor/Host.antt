-- ===== src/Monitor/Host.antt =====
-- The detectors of agent_runner/_monitor_detectors.py that read the metrics: disk, inodes, memory.
--
-- A percentage is in hundredths, which covers the samples' one decimal; a growth rate is compared by
-- its exact fraction.
use mathlib.Core.List.{reverse}
use cli_agent_runner.Event.Time.{parse_iso_ms}
use cli_agent_runner.Event.{Value}
use cli_agent_runner.HostHealth.{
  HealthConfig, Sample, configured_gate_inert, memory_pressure, signal_available,
}
use cli_agent_runner.Prelude.{
  ◌&&◌, ◌*◌, ◌-◌, Bool, List, Option, [], diff, if◌then◌else◌, false, is_some, leb, ltb, negsuc,
  none, pos, some, ◌||◌, ℕ, ℤ, ◌∷◌,
}
use cli_agent_runner.Monitor.{
  Detected, crash, quiet, warn, stop, fires, disk_warning, disk_critical, disk_growth, mem_pressure,
  mem_signal_unavailable, mem_pressure_gate_inert, disk_level, growth, host, available, no_action,
}

-- A sample of `metrics.sample()`. In the fields with two options the outer `none` is a missing key,
-- the inner one null. `new_shape` says that a key of `_NEW_MEM_SAMPLE_KEYS` is there.
pub record Metric : Type 0 where
  pub ts : Option Value
  pub disk : Option (Option ℕ)
  pub inode : Option (Option ℕ)
  pub new_shape : Bool
  pub sample : Sample

pub record DiskConfig : Type 0 where
  pub warning_pct : ℕ
  pub critical_pct : ℕ
  pub growth_window_s : ℕ
  pub disk_growth_per_hr : ℕ
  pub inode_growth_per_hr : ℕ

first_with {ℓ} : {A : Type ℓ} → (Metric → Option A) → List Metric → Option A
first_with key [] = none
first_with key (m ∷ ms) =
    let rest = first_with key ms in elim (key m) [ none ↦ rest | some v ↦ some v ]

unfoldable pub latest {ℓ} : {A : Type ℓ} → (Metric → Option A) → List Metric → Option A
unfolding first_with
latest key metrics = first_with key (reverse metrics)

abbrev pub joined {ℓ} : {A : Type ℓ} → Option (Option A) → Option A
joined none = none
joined (some o) = o

unfoldable pub detect_disk_warning : List Metric → DiskConfig → Detected
detect_disk_warning metrics cfg = elim (joined (latest (λ m. m.disk) metrics)) [
  | none ↦ quiet
  | some val ↦
      if ltb val cfg.warning_pct || leb cfg.critical_pct val
      then quiet
      else warn disk_warning (disk_level val cfg.warning_pct)
]

unfoldable pub detect_disk_critical : List Metric → DiskConfig → Detected
detect_disk_critical metrics cfg = elim (joined (latest (λ m. m.disk) metrics)) [
  | none ↦ quiet
  | some val ↦
      if ltb val cfg.critical_pct
      then quiet
      else stop disk_critical (disk_level val cfg.critical_pct)
]

-- The oldest sample in the window before the latest stamp: `none` is a stamp that raises, the inner
-- `none` that there is no such sample.
unfoldable pub baseline_of : ℕ → ℕ → List Metric → Option (Option (Metric × ℕ))
baseline_of window_ms latest_ts [] = some none
baseline_of window_ms latest_ts (m ∷ ms) =
    let rest = baseline_of window_ms latest_ts ms in
    if is_some m.ts && is_some m.disk
    then (elim m.ts [
      | none ↦ rest
      | some raw ↦ elim (parse_iso_ms raw) [
        | none ↦ none
        | some ts ↦
            if ltb latest_ts ts || ltb window_ms (latest_ts - ts) then rest else some (some (m, ts))
      ]
    ])
    else rest

-- `delta / hours >= floor`, multiplied out.
abbrev pub rate_trips : ℤ → ℕ → ℕ → Bool
rate_trips (pos d) elapsed_ms floor = leb (floor * elapsed_ms) (d * 3600000)
rate_trips (negsuc d) elapsed_ms floor = false

abbrev pub inode_delta : Option ℕ → Option ℕ → Option ℤ
inode_delta (some cur) (some before) = some (diff cur before)
inode_delta _ _ = none

abbrev pub trips : Option ℤ → ℕ → ℕ → Bool
trips none elapsed_ms floor = false
trips (some d) elapsed_ms floor = rate_trips d elapsed_ms floor

unfoldable pub growth_since : List Metric → DiskConfig → ℕ → ℕ → Metric → ℕ → Detected
growth_since metrics cfg latest_ts latest_disk base base_ts =
    let elapsed = latest_ts - base_ts in
    let inode = inode_delta (joined (latest (λ m. m.inode) metrics)) (joined base.inode) in
    if leb latest_ts base_ts then quiet else elim (joined base.disk) [
      | none ↦ crash
      | some before ↦
          let disk = diff latest_disk before in
          if rate_trips disk elapsed cfg.disk_growth_per_hr
            || trips inode elapsed cfg.inode_growth_per_hr
          then warn disk_growth (growth disk inode elapsed)
          else quiet
    ]

unfoldable pub detect_disk_growth : List Metric → DiskConfig → Detected
detect_disk_growth metrics cfg = elim (latest (λ m. m.ts) metrics) [
  | none ↦ quiet
  | some raw ↦ elim (joined (latest (λ m. m.disk) metrics)) [
    | none ↦ quiet
    | some latest_disk ↦ elim (parse_iso_ms raw) [
      | none ↦ crash
      | some latest_ts ↦ elim (baseline_of (cfg.growth_window_s * 1000) latest_ts metrics) [
        | none ↦ crash
        | some none ↦ quiet
        | some (some (base, base_ts)) ↦ growth_since metrics cfg latest_ts latest_disk base base_ts
      ]
    ]
  ]
]

abbrev pub no_sample : Sample
no_sample = record {
  psi_some = none;
  psi_full = none;
  swap_sout = none;
  mem_free_mb = none;
  mem_available_mb = none;
}

-- The current metrics, `none` where there are none yet, and the sample before, `{}` where there is none.
unfoldable pub latest_two : List Metric → Option Metric × Sample
latest_two metrics = elim (reverse metrics) [
  | [] ↦ (none, no_sample)
  | cur ∷ [] ↦ (some cur, no_sample)
  | cur ∷ prev ∷ _ ↦ (some cur, prev.sample)
]

-- What the ladder says of a sample of the new shape.
unfoldable pub mem_verdict : Sample → Sample → HealthConfig → Detected
mem_verdict cur prev cfg = elim (memory_pressure cur prev cfg) [
  | some p ↦ fires (record {
    severity = p.severity;
    detector = mem_pressure;
    context = host p.context;
    auto_action = no_action;
  })
  | none ↦
      if signal_available cur prev
      then quiet
      else warn mem_signal_unavailable (available cur.mem_available_mb)
]

unfoldable pub detect_mem_pressure : List Metric → HealthConfig → Detected
unfolding mem_verdict
detect_mem_pressure metrics cfg =
    let (cur, prev) = latest_two metrics in
    elim cur [
      | none ↦ quiet
      | some m ↦ if m.new_shape then mem_verdict m.sample prev cfg else quiet
    ]

unfoldable pub detect_mem_pressure_gate_inert : List Metric → HealthConfig → Detected
detect_mem_pressure_gate_inert metrics cfg =
    let (cur, prev) = latest_two metrics in
    let sample : Sample = elim cur [ none ↦ no_sample | some m ↦ m.sample ] in
    if configured_gate_inert sample prev cfg
    then warn mem_pressure_gate_inert (available sample.mem_available_mb)
    else quiet
