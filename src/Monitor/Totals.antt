-- ===== src/Monitor/Totals.antt =====
-- The statistics, the recent alerts and the timer of the watch.
use qa_api.Common.{
  ◌||◌, ◌&&◌, ℕ, ◌+◌, ◌-◌, ◌≤◌, ◌<◌, Bool, true, false, ◌≡◌, refl, ◌==◌, if◌then◌else◌, List, [],
  ◌∷◌, ◌++◌, length, drop, select, length-drop, arith, all, zero, suc,
}
use qa_api.Monitor.Watch.{
  slice_last, Alert, Monitor, initial, Check, run, start_monitoring, stop_monitoring,
  get_recent_alerts, is_lost, is_restored, get_monitoring_stats, answered, failed, finish,
  update_connection_status, handle_connection_error, create_alert, lost_alert, restored_alert,
}
use qa_api.Monitor.Alerts.{history_is_last_100}

-- `start` and `stop` in any order.
pub data Control : Type 0 where
  start stop : Control

abbrev pub control : List Control → Monitor → Monitor
control [] m = m
control (start ∷ rest) m = control rest (start_monitoring m)
control (stop ∷ rest) m = control rest (stop_monitoring m)

abbrev Timers : Monitor → Type 0
Timers m = m.intervals ≡ (if m.is_monitoring then 1 else 0)

control-Timers : (cs : List Control) (m : Monitor) → Timers m → Timers (control cs m)
unfolding start_monitoring stop_monitoring
control-Timers [] m h = h
control-Timers (start ∷ rest) m h = control-Timers rest (start_monitoring m) (ground arith)
control-Timers (stop ∷ rest) m h = control-Timers rest (stop_monitoring m) (ground arith)

-- However often monitoring is started and stopped, one timer runs while it is active, and none
-- while it is not.
one_timer :
    (cs : List Control)
    → let m = control cs initial in m.intervals ≡ (if m.is_monitoring then 1 else 0)
one_timer cs = control-Timers cs initial refl

drop-nil {ℓ} : {A : Type ℓ} (n : ℕ) → drop {A = A} n [] ≡ []
drop-nil zero = refl
drop-nil (suc n) = refl

drop-drop {ℓ} : {A : Type ℓ} (m n : ℕ) (xs : List A) → drop m (drop n xs) ≡ drop (n + m) xs
drop-drop m zero xs = ground arith
drop-drop {A = A} m (suc n) [] = ground (arith, drop-nil {A = A} m, drop-nil {A = A} (suc n + m))
drop-drop m (suc n) (x ∷ xs) =
    let next_n : suc n + m ≡ suc (n + m) = omega arith in rw next_n (drop-drop m n xs)

slice_last-recent :
    (xs : List Alert) (limit : ℕ)
    → 0 < limit
    → limit ≤ 100
    → slice_last limit (drop (length xs - 100) xs) ≡ drop (length xs - limit) xs
slice_last-recent xs limit some_asked few =
    let n : ℕ = length xs - 100 in
    let not_none : (limit == 0) ≡ false = ground arith in
    let sum : n + (length (drop n xs) - limit) ≡ length xs - limit =
      ground (arith, length-drop n xs) in
    let moved : drop (length (drop n xs) - limit) (drop n xs)
        ≡ drop (n + (length (drop n xs) - limit)) xs =
      drop-drop (length (drop n xs) - limit) n xs in
    rw not_none (rw sum at moved)

-- Between one and a hundred recent alerts are the last of all alerts ever raised; asking for none
-- of them gives the whole history.
recent_alerts_are_last :
    (cs : List Check) (limit : ℕ)
    → 0 < limit
    → limit ≤ 100
    → let m = run cs initial in
      (get_recent_alerts limit m ≡ drop (length m.notified - limit) m.notified)
      × (get_recent_alerts 0 m ≡ m.alert_history)
recent_alerts_are_last cs limit some_asked few = (
  rw (history_is_last_100 cs).0 (slice_last-recent (run cs initial).notified limit some_asked few),
  refl,
)

-- No alert has a third kind, so the numbers of the statistics add up.
abbrev is_known : Alert → Bool
is_known a = is_lost a || is_restored a

all-append : (f : Alert → Bool) (xs ys : List Alert) → all f (xs ++ ys) ≡ (all f xs && all f ys)
all-append f [] ys = refl
all-append f (x ∷ xs) ys = ground (arith, all-append f xs ys)

all-drop : (f : Alert → Bool) (n : ℕ) (xs : List Alert) → all f xs ≡ true → all f (drop n xs) ≡ true
all-drop f zero xs h = h
all-drop f (suc n) [] h = refl
all-drop f (suc n) (x ∷ xs) h = all-drop f n xs (ground arith)

finish-known :
    (c : Check) (m : Monitor)
    → all is_known m.notified ≡ true
    → all is_known (finish c m).notified ≡ true
unfolding finish update_connection_status handle_connection_error create_alert
finish-known (answered s b) m h = ground (
  arith,
  all-append is_known m.notified (lost_alert s ∷ []),
  all-append is_known m.notified (restored_alert s ∷ []),
)
finish-known (failed s) m h = ground (arith, all-append is_known m.notified (lost_alert s ∷ []))

run-known :
    (cs : List Check) (m : Monitor)
    → all is_known m.notified ≡ true
    → all is_known (run cs m).notified ≡ true
run-known [] m h = h
run-known (c ∷ cs) m h = run-known cs (finish c m) (finish-known c m h)

known_add_up :
    (xs : List Alert)
    → all is_known xs ≡ true
    → length (select is_lost xs) + length (select is_restored xs) ≡ length xs
known_add_up [] h = refl
known_add_up (x ∷ xs) h = ground (arith, known_add_up xs)

-- After any checks since the start, the alerts of the statistics are those that a service was lost
-- and those that one was restored.
stats_add_up :
    (cs : List Check)
    → let stats = get_monitoring_stats (run cs initial) in
      stats.connection_lost + stats.connection_restored ≡ stats.total_alerts
unfolding get_monitoring_stats
stats_add_up cs =
    let m = run cs initial in
    known_add_up m.alert_history (
      rw (history_is_last_100 cs).0
        (all-drop is_known (length m.notified - 100) m.notified (run-known cs initial refl)))
