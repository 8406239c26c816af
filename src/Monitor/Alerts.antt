-- ===== src/Monitor/Alerts.antt =====
-- Which alerts a run of checks raises, and which of them the history keeps.
use qa_api.Common.{
  ℕ, ◌+◌, ◌-◌, ◌≤◌, Bool, true, false, ◌&&◌, ◌≡◌, ◌≢◌, refl, ltb, if◌then◌else◌, List, [], ◌∷◌,
  ◌++◌, sym, ltb→lt, length, drop, select, length-append, length-drop, arith, Bool-cases, inl, inr,
  zero, suc,
}
use qa_api.Monitor.Watch.{
  Service, database, cache, queue, email, same_service, Status, connected, disconnected,
  reconnecting, same_status, Alert, Monitor, initial, slice_last, create_alert, lost_alert,
  restored_alert, handle_connection_lost, handle_connection_restored, on_change, set_status,
  status_of, update_connection_status, handle_connection_error, Check, answered, failed, finish,
  run, is_lost, is_restored,
}

drop-append {ℓ} :
    {A : Type ℓ} (n : ℕ) (xs ys : List A) → n ≤ length xs → drop n (xs ++ ys) ≡ drop n xs ++ ys
drop-append zero xs ys h = refl
drop-append (suc n) [] ys h = absurd (omega (arith, h))
drop-append (suc n) (x ∷ xs) ys h = drop-append n xs ys (omega (arith, h))

drop-one {ℓ} : {A : Type ℓ} (n : ℕ) (xs : List A) → drop 1 (drop n xs) ≡ drop (suc n) xs
drop-one zero xs = refl
drop-one (suc n) [] = refl
drop-one (suc n) (x ∷ xs) = drop-one n xs

-- The list that the history keeps of all alerts.
abbrev recent : List Alert → List Alert
recent all_alerts = drop (length all_alerts - 100) all_alerts

recent-push :
    (xs : List Alert) (a : Alert)
    → let h = recent xs ++ (a ∷ []) in
      (if ltb 100 (length h) then slice_last 100 h else h) ≡ recent (xs ++ (a ∷ []))
recent-push xs a = elim (Bool-cases (ltb 99 (length xs))) [
  | inr few ↦
      let none_left : length xs - 100 ≡ 0 = ground arith in
      let grown : length (xs ++ (a ∷ [])) ≡ length xs + 1 = length-append xs (a ∷ []) in
      let none_left' : length (xs ++ (a ∷ [])) - 100 ≡ 0 = ground arith in
      let short : ltb 100 (length (xs ++ (a ∷ []))) ≡ false = ground arith in
      rw (none_left, none_left', short) refl
  | inl many ↦
      let n : ℕ = length xs - 100 in
      let shifted : recent xs ++ (a ∷ []) ≡ drop n (xs ++ (a ∷ [])) =
        sym (drop-append n xs (a ∷ []) (ground arith)) in
      let grown : length (xs ++ (a ∷ [])) ≡ length xs + 1 = length-append xs (a ∷ []) in
      let kept : length (drop n (xs ++ (a ∷ []))) ≡ 101 =
        ground (arith, length-drop n (xs ++ (a ∷ [])), ltb→lt 99 (length xs) many) in
      let next_n : length (xs ++ (a ∷ [])) - 100 ≡ suc n = ground arith in
      rw (shifted, kept, next_n) (drop-one n (xs ++ (a ∷ [])))
]

abbrev KeepsRecent : Monitor → Type 0
KeepsRecent m = m.alert_history ≡ recent m.notified

lost-KeepsRecent :
    (s : Service) (m : Monitor) → KeepsRecent m → KeepsRecent (handle_connection_lost s m)
unfolding create_alert
lost-KeepsRecent s m h = rw h (recent-push m.notified (lost_alert s))

restored-KeepsRecent :
    (s : Service) (m : Monitor) → KeepsRecent m → KeepsRecent (handle_connection_restored s m)
unfolding create_alert
restored-KeepsRecent s m h = rw h (recent-push m.notified (restored_alert s))

on_change-KeepsRecent :
    (s : Service) (status previous : Status) (m : Monitor)
    → KeepsRecent m
    → KeepsRecent (on_change s status previous m)
on_change-KeepsRecent s disconnected disconnected m h = h
on_change-KeepsRecent s disconnected connected m h = lost-KeepsRecent s m h
on_change-KeepsRecent s disconnected reconnecting m h = lost-KeepsRecent s m h
on_change-KeepsRecent s connected disconnected m h = restored-KeepsRecent s m h
on_change-KeepsRecent s connected connected m h = h
on_change-KeepsRecent s connected reconnecting m h = h
on_change-KeepsRecent s reconnecting previous m h = h

finish-KeepsRecent : (c : Check) (m : Monitor) → KeepsRecent m → KeepsRecent (finish c m)
unfolding finish update_connection_status handle_connection_error
finish-KeepsRecent (answered s b) m h =
    on_change-KeepsRecent s (status_of b) (m.connection_status s) (set_status s (status_of b) m) h
finish-KeepsRecent (failed s) m h = lost-KeepsRecent s (set_status s disconnected m) h

run-KeepsRecent : (cs : List Check) (m : Monitor) → KeepsRecent m → KeepsRecent (run cs m)
run-KeepsRecent [] m h = h
run-KeepsRecent (c ∷ cs) m h = run-KeepsRecent cs (finish c m) (finish-KeepsRecent c m h)

-- Whatever checks have run since the start: the history is the last hundred of all alerts that were
-- raised and handed to the notification service, in their order, and no more than a hundred.
pub history_is_last_100 :
    (cs : List Check)
    → let m = run cs initial in
      (m.alert_history ≡ drop (length m.notified - 100) m.notified) × (length m.alert_history ≤ 100)
history_is_last_100 cs =
    let m = run cs initial in
    let kept = run-KeepsRecent cs initial refl in
    (kept, rw kept (ground (arith, length-drop (length m.notified - 100) m.notified)))

-- How many alerts of a kind there are about a service.
abbrev about : (Alert → Bool) → Service → Alert → Bool
about kind s a = kind a && same_service a.service s

abbrev pub count : (Alert → Bool) → Service → List Alert → ℕ
count kind s xs = length (select (about kind s) xs)

abbrev pub is_down : Service → Monitor → ℕ
is_down s m = if same_status (m.connection_status s) disconnected then 1 else 0

-- How many checks of the service failed with an error while it was already disconnected.
abbrev again : Service → Check → Monitor → ℕ
again s (answered t b) m = 0
again s (failed t) m = if same_service t s then is_down s m else 0

abbrev pub repeated : Service → List Check → Monitor → ℕ
repeated s [] m = 0
repeated s (c ∷ cs) m = again s c m + repeated s cs (finish c m)

count-push :
    (kind : Alert → Bool) (s : Service) (xs : List Alert) (a : Alert)
    → count kind s (xs ++ (a ∷ [])) ≡ count kind s xs + (if about kind s a then 1 else 0)
count-push kind s [] a = ground arith
count-push kind s (x ∷ xs) a = ground (arith, count-push kind s xs a)

same_service-eq : (t s : Service) → same_service t s ≡ true → t ≡ s
same_service-eq database s h = ground arith
same_service-eq cache s h = ground arith
same_service-eq queue s h = ground arith
same_service-eq email s h = ground arith

-- A service is never reconnecting, and its alerts add up, `extra` of them being repetitions.
abbrev Balanced : Service → ℕ → Monitor → Type 0
Balanced s extra m =
    ((m.connection_status s ≢ reconnecting))
    × (count is_lost s m.notified ≡ count is_restored s m.notified + is_down s m + extra)

finish-Balanced :
    (s : Service) (extra : ℕ) (c : Check) (m : Monitor)
    → Balanced s extra m
    → Balanced s (extra + again s c m) (finish c m)
unfolding finish update_connection_status handle_connection_error create_alert
finish-Balanced s extra (answered t b) m (r, h) =
    let lost = count-push is_lost s m.notified in
    let restored = count-push is_restored s m.notified in
    elim (Bool-cases (same_service t s)) [
      | inl same ↦ ground (
        arith,
        same_service-eq t s same,
        lost (lost_alert t),
        lost (restored_alert t),
        restored (lost_alert t),
        restored (restored_alert t),
      )
      | inr differ ↦ ground (
        arith,
        lost (lost_alert t),
        lost (restored_alert t),
        restored (lost_alert t),
        restored (restored_alert t),
      )
    ]
finish-Balanced s extra (failed t) m (r, h) = ground (
  arith,
  same_service-eq t s,
  count-push is_lost s m.notified (lost_alert t),
  count-push is_restored s m.notified (lost_alert t),
)

run-Balanced :
    (s : Service) (extra : ℕ) (cs : List Check) (m : Monitor)
    → Balanced s extra m
    → Balanced s (extra + repeated s cs m) (run cs m)
run-Balanced s extra [] m h = ground (arith, h)
run-Balanced s extra (c ∷ cs) m h =
    ground
      (arith, run-Balanced s (extra + again s c m) cs (finish c m) (finish-Balanced s extra c m h))

-- After any checks since the start, a service is connected or disconnected, and the alerts that it
-- was lost are as many as the alerts that it was restored, one more while it is disconnected, and
-- one more for each check that failed with an error while it was already disconnected. Without
-- such errors the alerts of a service are therefore one for each change.
pub alerts_balance :
    (s : Service) (cs : List Check)
    → let m = run cs initial in
      (m.connection_status s ≢ reconnecting)
      × (count is_lost s m.notified
          ≡ count is_restored s m.notified + is_down s m + repeated s cs initial)
alerts_balance s cs = ground (arith, run-Balanced s 0 cs initial (ground arith))
