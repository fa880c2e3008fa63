-- ===== src/Monitor/Tests.antt =====
-- The monitor of skynet-src/skynet_monitor.c at concrete inputs.
use skynet_note.Base.{◌≡◌, refl, some, [], arith}
use skynet_note.Monitor.{Monitor, monitor_new, monitor_trigger, monitor_check}
use skynet_note.Monitor.Alarm.{triggers, alarm, monitor_check-alarm}

-- The worker hands a message from service 3 to service 7.
abbrev busy : Monitor
busy = record { version = 1; check_version = 0; source = 3; destination = 7 }

triggered : monitor_trigger monitor_new 3 7 ≡ busy
unfolding monitor_trigger
triggered = refl

stuck : alarm [] busy ≡ some (record { source = 3; destination = 7; version = 1 })
unfolding alarm
stuck = refl

monitor_check-alarm_example :
    ((monitor_check (triggers [] (monitor_check busy).1)).0 ≡ alarm [] busy)
monitor_check-alarm_example = monitor_check-alarm busy [] (omega arith) (omega arith)
