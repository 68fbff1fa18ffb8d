-- ===== src/Config/Accepted.antt =====
-- What agent_runner/config accepts of a [monitor] table lies within the bounds of its fields.
use cli_agent_runner.Config.Bounds.{
  InPct, InPositivePct, IsPositive, IsReachable, NoGoals, auto_stop-Holds, brake_step-Holds,
  can_fire-IsReachable, require_pct-InPct, require_positive_float-Holds, require_positive_int-Holds,
  require_positive_pct-Holds, tolerance-Holds,
}
use cli_agent_runner.Config.Accept.{Holds, guard-Holds, then-Holds, then_any}
use mathlib.Core.Path.{subst}
use cli_agent_runner.Config.Monitor.{
  parse_brake, parse_disk, parse_host_health, parse_pressure, can_fire, parse_monitor,
}
use cli_agent_runner.Prelude.{◌<◌, Bool, some, true, ◌≡◌, ◌≤◌, String}
use cli_agent_runner.Config.{
  BrakeSection, DiskSection, HostHealthSection, PressureSection, MonitorSection,
}
use cli_agent_runner.Config.Values.{TomlTable}

pub record DiskBounds (d : DiskSection) : Type 0 where
  pub warning : InPct d.warning_pct
  pub critical : InPct d.critical_pct
  pub spans : 0 < d.growth_window_s
  pub disk_rate : IsPositive d.disk_growth
  pub inode_rate : IsPositive d.inode_growth

pub record PressureBounds (p : PressureSection) : Type 0 where
  pub full : InPositivePct p.full_avg10_critical
  pub some_stall : InPositivePct p.some_avg10_warning
  pub samples : 0 < p.critical_consecutive_samples
  pub rate : IsPositive p.cgroup_growth_rate

pub record BrakeBounds (b : BrakeSection) : Type 0 where
  pub step : b.memory_high_step_pct ≤ 50
  pub samples : 0 < b.warning_consecutive_samples

pub record HostBounds (h : HostHealthSection) : Type 0 where
  pub disk_bounds : DiskBounds h.disk
  pub pressure_bounds : PressureBounds h.pressure
  pub brake_bounds : BrakeBounds h.brake

disk-Holds : (d : TomlTable) → Holds DiskBounds (parse_disk d)
unfolding parse_disk
disk-Holds d = then_any DiskBounds _ _ (λ u.
    then-Holds DiskBounds InPct _ _ (require_pct-InPct _) (λ w hw.
      then-Holds DiskBounds InPct _ _ (require_pct-InPct _) (λ c hc.
        then-Holds DiskBounds (λ n. 0 < n) _ _ (require_positive_int-Holds _)
          (λ g hg. then-Holds DiskBounds IsPositive _ _ (require_positive_float-Holds _) (λ dg hdg.
            then-Holds DiskBounds IsPositive _ _ (require_positive_float-Holds _) (λ ig hig.
              record {
                warning = hw;
                critical = hc;
                spans = hg;
                disk_rate = hdg;
                inode_rate = hig;
              }))))))

pressure-Holds : (d : TomlTable) → Holds PressureBounds (parse_pressure d)
unfolding parse_pressure
pressure-Holds d = then_any PressureBounds _ _ (λ u.
    then-Holds PressureBounds InPositivePct _ _ (require_positive_pct-Holds _) (λ f hf.
      then-Holds PressureBounds InPositivePct _ _ (require_positive_pct-Holds _) (λ s hs.
        then-Holds PressureBounds (λ n. 0 < n) _ _ (require_positive_int-Holds _)
          (λ n hn. then_any PressureBounds _ _ (λ t.
            then-Holds PressureBounds IsPositive _ _ (require_positive_float-Holds _) (λ g hg.
              then_any PressureBounds _ _
                (λ v. record { full = hf; some_stall = hs; samples = hn; rate = hg })))))))

brake-Holds : (d : TomlTable) → Holds BrakeBounds (parse_brake d)
unfolding parse_brake
brake-Holds d = then_any BrakeBounds _ _ (λ u. then_any BrakeBounds _ _ (λ h.
    then-Holds BrakeBounds (λ n. n ≤ 50) _ _ (brake_step-Holds _)
      (λ p hp.
        then-Holds BrakeBounds (λ n. 0 < n) _ _ (require_positive_int-Holds _)
          (λ n hn. record { step = hp; samples = hn }))))

host-Holds : (d : TomlTable) → Holds HostBounds (parse_host_health d)
unfolding parse_host_health
host-Holds d = then_any HostBounds _ _ (λ u. then_any HostBounds _ _ (λ disk_d.
    then_any HostBounds _ _ (λ mem_d. then_any HostBounds _ _ (λ pres_d.
      then_any HostBounds _ _ (λ brake_d.
        then-Holds HostBounds DiskBounds _ _ (disk-Holds disk_d) (λ k hk.
          then_any HostBounds _ _ (λ m.
            then-Holds HostBounds PressureBounds _ _ (pressure-Holds pres_d) (λ p hp.
              then-Holds HostBounds BrakeBounds _ _ (brake-Holds brake_d) (λ b hb. record {
                disk_bounds = hk;
                pressure_bounds = hp;
                brake_bounds = hb;
              })))))))))

-- The bounds of an accepted [monitor] table.
pub record MonitorBounds (m : MonitorSection) : Type 0 where
  pub host_bounds : HostBounds m.host_health
  pub tolerance : m.remote_failure_tolerance_s ≤ 3600
  pub no_goal_stops : NoGoals m.auto_stop_on
  pub reachable : IsReachable m.anomaly_repetitive_threshold m.anomaly_repetitive_window

monitor-Holds :
    (compiles : String → Bool) (d : TomlTable) → Holds MonitorBounds (parse_monitor compiles d)
unfolding parse_monitor
monitor-Holds compiles d = then_any MonitorBounds _ _ (λ u. then_any MonitorBounds _ _ (λ hh_d.
    then-Holds MonitorBounds HostBounds _ _ (host-Holds hh_d) (λ h hh.
      then_any MonitorBounds _ _ (λ ps.
        then-Holds MonitorBounds NoGoals _ _ (auto_stop-Holds _) (λ ns hns.
          then-Holds MonitorBounds (λ n. n ≤ 3600) _ _ (tolerance-Holds _)
            (λ r hr. then_any MonitorBounds _ _ (λ w. then_any MonitorBounds _ _ (λ t.
              then_any MonitorBounds _ _ (λ i. then_any MonitorBounds _ _ (λ s.
                then-Holds MonitorBounds (λ b. can_fire t w ≡ true) _ _ (guard-Holds (can_fire t w))
                  (λ b hb. record {
                    host_bounds = hh;
                    tolerance = hr;
                    no_goal_stops = hns;
                    reachable = can_fire-IsReachable t w hb;
                  })))))))))))

-- Whatever the file says, a [monitor] table that is accepted lies within its bounds: the disk and pressure
-- percentages are at most 100 and not negative, those of the pressure positive; the growth window, the
-- growth rates and the numbers of samples are positive; the brake step is at most 50 and the failure
-- tolerance at most 3600; the repetition threshold is no greater than its window unless one of the two
-- is 0; and no alert that may stop the service has a name that begins with goal.
pub parse_monitor-MonitorBounds :
    (compiles : String → Bool) (d : TomlTable) (m : MonitorSection)
    → parse_monitor compiles d ≡ some m
    → MonitorBounds m
parse_monitor-MonitorBounds compiles d m e =
    subst (Holds MonitorBounds) e (monitor-Holds compiles d)
