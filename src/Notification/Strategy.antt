-- ===== src/Notification/Strategy.antt =====
-- services/strategies/SmartNotificationStrategy.ts
use qa_api.Common.{ℕ, String, Bool, true, false, ◌&&◌, ◌||◌, ltb, leb, if◌then◌else◌}
use qa_api.Notification.Payload.{
  UserType, NotificationType, Priority, TimeOfDay, NotificationContext, SystemMetrics,
}

abbrev pub is_critical : NotificationType → Bool
is_critical NotificationType.critical = true
is_critical _ = false

abbrev pub is_premium : UserType → Bool
is_premium UserType.premium = true
is_premium _ = false

abbrev pub is_urgent : Priority → Bool
is_urgent Priority.urgent = true
is_urgent _ = false

abbrev is_peak : TimeOfDay → Bool
is_peak TimeOfDay.peak = true
is_peak _ = false

unfoldable pub should_use_queue : NotificationContext → SystemMetrics → Bool
should_use_queue c m =
    if is_critical c.notification_type
    then false
    else if is_premium c.user_type && is_urgent c.priority
    then false
    else if ltb 1000 m.queue_size || ltb 5000 m.response_time
    then true
    else if ltb 5 m.error_rate
    then true
    else if is_peak c.time_of_day && ltb 100 m.active_connections
    then true
    else true

pub data Route : Type 0 where
  direct queue : Route

unfoldable pub get_strategy : NotificationContext → SystemMetrics → Route
unfolding should_use_queue
get_strategy c m = if should_use_queue c m then queue else direct

unfoldable pub get_retry_attempts : NotificationContext → ℕ
get_retry_attempts c = elim c.notification_type [
  | NotificationType.critical ↦ 5
  | NotificationType.high ↦ 3
  | NotificationType.normal ↦ 2
  | NotificationType.low ↦ 1
]

-- In milliseconds.
unfoldable pub get_timeout : NotificationContext → ℕ
get_timeout c = elim c.priority [
  | Priority.urgent ↦ 5000
  | Priority.high ↦ 10000
  | Priority.normal ↦ 30000
  | Priority.low ↦ 60000
]

-- `new Date().getHours()` is a parameter.
unfoldable pub get_time_of_day : ℕ → TimeOfDay
get_time_of_day hour =
    if leb 9 hour && leb hour 17
    then TimeOfDay.peak
    else if leb 18 hour && leb hour 22
    then TimeOfDay.normal
    else TimeOfDay.off_peak

unfoldable pub create_context :
    ℕ → String → UserType → NotificationType → Priority → NotificationContext
unfolding get_time_of_day
create_context hour user_id user_type notification_type priority = record {
  user_id = user_id;
  user_type = user_type;
  notification_type = notification_type;
  priority = priority;
  time_of_day = get_time_of_day hour;
}
