-- ===== src/Monitor.antt =====
-- skynet-src/skynet_monitor.c: one monitor for each worker. The worker triggers it before and after
-- it hands a message to a service; the monitor thread checks it now and then.
pub mod Alarm
mod Tests
use skynet_note.Base.{ℕ, ◌+◌, ◌%◌, ◌^◌, Option, none, some, List, [], ◌∷◌, ◌==◌, if◌then◌else◌}

-- `struct skynet_monitor`; `version` is an `int` that wraps.
pub record Monitor : Type 0 where
  pub version : ℕ
  pub check_version : ℕ
  pub source : ℕ
  pub destination : ℕ

-- `skynet_monitor_new`
abbrev pub monitor_new : Monitor
monitor_new = record { version = 0; check_version = 0; source = 0; destination = 0 }

-- `skynet_monitor_trigger`
unfoldable pub monitor_trigger : Monitor → ℕ → ℕ → Monitor
monitor_trigger sm source destination = record sm {
  source = source;
  destination = destination;
  version = (sm.version + 1) % 2 ^ 32;
}

-- What `skynet_context_endless` and `skynet_error` are told
pub record Report : Type 0 where
  pub source : ℕ
  pub destination : ℕ
  pub version : ℕ

-- `skynet_monitor_check`
unfoldable pub monitor_check : Monitor → Option Report × Monitor
monitor_check sm =
    if sm.version == sm.check_version
    then (if sm.destination == 0 then (none, sm) else (
      some (record { source = sm.source; destination = sm.destination; version = sm.version }),
      sm,
    ))
    else (none, record sm { check_version = sm.version })
