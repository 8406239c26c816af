-- ===== src/Monitor/Tests.antt =====
-- The theorems on the watch at concrete inputs: the database is lost, fails again, and is back.
use qa_api.Common.{◌+◌, ◌-◌, ◌≤◌, true, false, ◌≡◌, ◌≢◌, List, [], ◌∷◌, length, drop}
use qa_api.Monitor.Watch.{
  database, cache, reconnecting, Check, answered, failed, run, initial, is_lost, is_restored,
}
use qa_api.Monitor.Alerts.{count, is_down, repeated, history_is_last_100, alerts_balance}

abbrev outage : List Check
outage =
    answered cache true
    ∷ answered database false
    ∷ failed database
    ∷ answered database true
    ∷ failed cache
    ∷ []

history_is_last_100_example :
    let m = run outage initial in
    (m.alert_history ≡ drop (length m.notified - 100) m.notified) × (length m.alert_history ≤ 100)
history_is_last_100_example = history_is_last_100 outage

alerts_balance_example :
    let m = run outage initial in
    (m.connection_status database ≢ reconnecting)
    × (count is_lost database m.notified
        ≡ count is_restored database m.notified
          + is_down database m
          + repeated database outage initial)
alerts_balance_example = alerts_balance database outage
