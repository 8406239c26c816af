-- ===== src/Monitor/Watch.antt =====
-- services/ConnectionMonitorService.ts. Times, hosts and the logger are left out; `notified` lists
-- the alerts handed to the notification service, whose errors are caught and logged.
use Prim.Native.String
use qa_api.Common.{
  ℕ, ◌+◌, ◌-◌, String, Bool, true, false, ◌&&◌, ◌==◌, ltb, if◌then◌else◌, Option, none, some, List,
  [], ◌∷◌, ◌++◌, length, drop, select,
}
use qa_api.Effect.{Outcome, ok, err}
use qa_api.Access.Gate.{has_text}

pub data Service : Type 0 where
  database cache queue email : Service

abbrev pub same_service : Service → Service → Bool
same_service database database = true
same_service cache cache = true
same_service queue queue = true
same_service email email = true
same_service _ _ = false

pub data Status : Type 0 where
  connected disconnected reconnecting : Status

abbrev pub same_status : Status → Status → Bool
same_status connected connected = true
same_status disconnected disconnected = true
same_status reconnecting reconnecting = true
same_status _ _ = false

-- The source declares `connection_failed` too, and raises no such alert.
pub data AlertType : Type 0 where
  connection_lost connection_restored connection_failed : AlertType

pub record Alert : Type 0 where
  pub alert_type : AlertType
  pub service : Service
  pub message : String

-- `service.toUpperCase()`
abbrev upper_name : Service → String
upper_name database = "DATABASE"
upper_name cache = "CACHE"
upper_name queue = "QUEUE"
upper_name email = "EMAIL"

-- `statusUpdate` and `alert` are the events that listeners hear.
pub data Emitted : Type 0 where
  status_update : Service → Status → Emitted
  alert : Alert → Emitted

pub record Monitor : Type 0 where
  pub connection_status : Service → Status
  pub alert_history : List Alert
  pub notified : List Alert
  pub emitted : List Emitted
  pub is_monitoring : Bool
  pub intervals : ℕ

-- The state that the constructor leaves.
abbrev pub initial : Monitor
initial = record {
  connection_status = λ _. connected;
  alert_history = [];
  notified = [];
  emitted = [];
  is_monitoring = false;
  intervals = 0;
}

-- `slice(-n)`, which for 0 is the whole list
abbrev pub slice_last {ℓ} : {A : Type ℓ} → ℕ → List A → List A
slice_last n xs = if n == 0 then xs else drop (length xs - n) xs

abbrev pub set_status : Service → Status → Monitor → Monitor
set_status s status m = record m {
  connection_status = λ t. if same_service s t then status else m.connection_status t;
}

unfoldable pub create_alert : Alert → Monitor → Monitor
create_alert a m =
    let history = m.alert_history ++ (a ∷ []) in
    record m {
      alert_history = if ltb 100 (length history) then slice_last 100 history else history;
      emitted = m.emitted ++ (alert a ∷ []);
    }

abbrev pub send_notification : Alert → Monitor → Monitor
send_notification a m = record m { notified = m.notified ++ (a ∷ []) }

abbrev pub lost_alert : Service → Alert
lost_alert s = record {
  alert_type = connection_lost;
  service = s;
  message = String.◌++◌ (upper_name s) " connection lost";
}

abbrev pub restored_alert : Service → Alert
restored_alert s = record {
  alert_type = connection_restored;
  service = s;
  message = String.◌++◌ (upper_name s) " connection restored";
}

abbrev pub handle_connection_lost : Service → Monitor → Monitor
handle_connection_lost s m = send_notification (lost_alert s) (create_alert (lost_alert s) m)

abbrev pub handle_connection_restored : Service → Monitor → Monitor
handle_connection_restored s m =
    send_notification (restored_alert s) (create_alert (restored_alert s) m)

-- An alert where the status has changed to lost, or from lost to connected.
abbrev pub on_change : Service → Status → Status → Monitor → Monitor
on_change s disconnected disconnected m = m
on_change s disconnected previous m = handle_connection_lost s m
on_change s connected disconnected m = handle_connection_restored s m
on_change s status previous m = m

unfoldable pub update_connection_status : Service → Status → Status → Monitor → Monitor
update_connection_status s status previous m =
    let changed = on_change s status previous (set_status s status m) in
    record changed { emitted = changed.emitted ++ (status_update s status ∷ []) }

-- An alert whatever the status was before, and no `statusUpdate`.
unfoldable pub handle_connection_error : Service → Monitor → Monitor
handle_connection_error s m = handle_connection_lost s (set_status s disconnected m)

abbrev pub status_of : Bool → Status
status_of b = if b then connected else disconnected

-- One check that comes to an end: its answer, or an error.
pub data Check : Type 0 where
  answered : Service → Bool → Check
  failed : Service → Check

unfoldable pub finish : Check → Monitor → Monitor
finish (answered s b) m = update_connection_status s (status_of b) (m.connection_status s) m
finish (failed s) m = handle_connection_error s m

abbrev pub run : List Check → Monitor → Monitor
run [] m = m
run (c ∷ cs) m = run cs (finish c m)

-- `ping`, awaited; the other checks read the configuration.
abbrev pub database_check : Outcome Bool → Check
database_check (ok b) = answered database b
database_check (err e) = failed database

pub record Config : Type 0 where
  pub redis_host : Option String
  pub redis_port : Option String
  pub smtp_host : Option String
  pub smtp_port : Option String

-- The check of the database ends last, behind its `await`.
unfoldable pub check_all_connections : Bool → Config → Outcome Bool → Monitor → Monitor
check_all_connections is_ready config ping m =
    if is_ready
    then run
        (answered cache (has_text config.redis_host && has_text config.redis_port)
          ∷ answered queue true
          ∷ answered email (has_text config.smtp_host && has_text config.smtp_port)
          ∷ database_check ping
          ∷ [])
        m
    else m

-- `intervals` counts the timers that run.
unfoldable pub start_monitoring : Monitor → Monitor
start_monitoring m =
    if m.is_monitoring then m else record m { is_monitoring = true; intervals = m.intervals + 1 }

unfoldable pub stop_monitoring : Monitor → Monitor
stop_monitoring m = record m { is_monitoring = false; intervals = m.intervals - 1 }

abbrev pub get_recent_alerts : ℕ → Monitor → List Alert
get_recent_alerts limit m = slice_last limit m.alert_history

abbrev pub is_lost : Alert → Bool
is_lost a = elim a.alert_type [ connection_lost ↦ true | _ ↦ false ]

abbrev pub is_restored : Alert → Bool
is_restored a = elim a.alert_type [ connection_restored ↦ true | _ ↦ false ]

pub record MonitoringStats : Type 0 where
  pub is_monitoring : Bool
  pub total_alerts : ℕ
  pub connection_lost : ℕ
  pub connection_restored : ℕ
  pub last_alert : Option Alert

abbrev pub last_of : List Alert → Option Alert
last_of [] = none
last_of (a ∷ []) = some a
last_of (a ∷ b ∷ rest) = last_of (b ∷ rest)

unfoldable pub get_monitoring_stats : Monitor → MonitoringStats
get_monitoring_stats m = record {
  is_monitoring = m.is_monitoring;
  total_alerts = length m.alert_history;
  connection_lost = length (select is_lost m.alert_history);
  connection_restored = length (select is_restored m.alert_history);
  last_alert = last_of m.alert_history;
}
