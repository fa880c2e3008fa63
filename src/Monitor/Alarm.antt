-- ===== src/Monitor/Alarm.antt =====
-- When a check of skynet-src/skynet_monitor.c reports a service.
use skynet_note.Base.{
  ℕ, ◌+◌, ◌%◌, ◌^◌, ◌<◌, ◌≡◌, ◌≢◌, refl, ap, ◌∙◌, sym, Option, none, some, List, [], ◌∷◌, length,
  arith, ℕ_discrete, ◌==◌, if◌then◌else◌,
}
use skynet_note.Monitor.{Monitor, Report, monitor_trigger, monitor_check}

-- A trigger is its source and its destination.
unfoldable pub triggers : List (ℕ × ℕ) → Monitor → Monitor
triggers [] sm = sm
triggers ((source, destination) ∷ ts) sm = triggers ts (monitor_trigger sm source destination)

-- What a check should report when the triggers `ts` came since the last one
unfoldable pub alarm : List (ℕ × ℕ) → Monitor → Option Report
alarm [] sm =
    if sm.destination == 0
    then none
    else some (record { source = sm.source; destination = sm.destination; version = sm.version })
alarm (t ∷ ts) sm = none

triggers-version :
    (ts : List (ℕ × ℕ)) (sm : Monitor)
    → sm.version < 2 ^ 32
    → ((triggers ts sm).version ≡ (sm.version + length ts) % 2 ^ 32)
      × ((triggers ts sm).check_version ≡ sm.check_version)
unfolding triggers monitor_trigger
triggers-version [] sm small = (omega (arith, small), refl)
triggers-version ((a, b) ∷ ts) sm small =
    let (v, c) = triggers-version ts (monitor_trigger sm a b) (omega arith) in (omega (arith, v), c)

check-same :
    (sm : Monitor)
    → sm.version ≡ sm.check_version
    → ((monitor_check sm).0 ≡ alarm [] sm) × ((monitor_check sm).1 ≡ sm)
unfolding monitor_check alarm
check-same sm e = (ground (arith, e), ground (arith, e))

check-moved :
    (sm : Monitor)
    → sm.version ≢ sm.check_version
    → monitor_check sm ≡ (none, record sm { check_version = sm.version })
unfolding monitor_check
check-moved sm ne = ground (arith, ne)

-- A check leaves the two versions equal, and the rest as it was.
check_syncs : (sm : Monitor) → (monitor_check sm).1 ≡ record sm { check_version = sm.version }
check_syncs sm = elim (ℕ_discrete sm.version sm.check_version) [
  | yes e ↦ (check-same sm e).1 ∙ ap (λ v. record sm { check_version = v }) (sym e)
  | no ne ↦ ap (λ p. p.1) (check-moved sm ne)
]

-- With fewer than 2 ^ 32 triggers between two checks, the second check reports a service exactly
-- when there was no trigger and the last one before had a destination, and then it reports that one.
pub monitor_check-alarm :
    (sm : Monitor) (ts : List (ℕ × ℕ))
    → sm.version < 2 ^ 32
    → length ts < 2 ^ 32
    → (monitor_check (triggers ts (monitor_check sm).1)).0 ≡ alarm ts sm
unfolding triggers alarm
monitor_check-alarm sm [] small few =
    let synced : Monitor = record sm { check_version = sm.version } in
    ap (λ m. (monitor_check m).0) (check_syncs sm) ∙ (check-same synced refl).0
monitor_check-alarm sm (t ∷ ts) small few =
    let synced : Monitor = record sm { check_version = sm.version } in
    let (v, c) = triggers-version (t ∷ ts) synced small in
    ap (λ m. (monitor_check (triggers (t ∷ ts) m)).0) (check_syncs sm)
    ∙ ap (λ p. p.0)
        (check-moved (triggers (t ∷ ts) synced) (λ e. omega (arith, e, v, c, few, small)))
