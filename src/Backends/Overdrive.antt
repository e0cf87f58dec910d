-- ===== src/Backends/Overdrive.antt =====
-- `OverdriveBackend` and `NullBackend` of hunter-rs/src/backend.rs.
use bug_hunter.Prelude.{Bool, true, false, none}
use bug_hunter.Backends.Decide.{denied, Outlook, no_window_data}

-- `OverdriveBackend::decide`, over the outlook of the inner backend.
unfoldable pub overdriven : {F : Type 0} → (enabled : Bool) → Outlook F → Outlook F
overdriven true outlook = record { normal = outlook.prioritized; prioritized = outlook.prioritized }
overdriven false outlook = outlook

-- `NullBackend::decide`.
abbrev pub null_outlook : {F : Type 0} → Outlook F
null_outlook = record {
  normal = denied no_window_data none;
  prioritized = denied no_window_data none;
}
