-- ===== src/Notification/Payload.antt =====
-- services/contracts/NotificationPayload.ts and INotificationStrategy.ts, and the part of a user
-- and of a stored notification that the managers of notifications read and write.
use qa_api.Common.{
  ℕ, String, Bool, true, false, ◌===◌, if◌then◌else◌, Option, none, some, List, [], ◌∷◌,
}
use qa_api.Error.Types.{ErrorCode}
use qa_api.Error.Handler.{Thrown, application, other}
use qa_api.Effect.{ok, err, Action}

-- A value in `data`, which the source leaves untyped.
pub data Value : Type 0 where
  text : String → Value
  texts : List String → Value
  undefined : Value

-- `data` (`details` below): the first entry of a key counts. An absent `data` has no entry.
abbrev pub Details : Type 0
Details = List (String × Value)

abbrev pub field : String → Details → Value
field key [] = undefined
field key ((k, v) ∷ rest) = if k === key then v else field key rest

-- `data?.[key] === s`
abbrev pub is_text : String → Value → Bool
is_text s (text t) = t === s
is_text s (texts _) = false
is_text s undefined = false

-- `data?.tags || []`
abbrev pub tags_of : Value → List String
tags_of (texts ts) = ts
tags_of (text _) = []
tags_of undefined = []

pub record NotificationPayload : Type 0 where
  pub channel : String
  pub to : String
  pub user_id : Option String
  pub from : Option String
  pub subject : Option String
  pub message : String
  pub html : Option String
  pub details : Details
  pub tags : Option (List String)

pub record MultiChannelNotificationPayload : Type 0 where
  pub channels : List String
  pub to : String
  pub subject : Option String
  pub message : String
  pub html : Option String
  pub details : Details

-- `Omit<NotificationPayload, 'channel' | 'to'>`, as far as `notifyUser` reads it.
pub record UserPayload : Type 0 where
  pub subject : Option String
  pub message : String
  pub html : Option String
  pub details : Details

pub record UserNotificationPreferences : Type 0 where
  pub email : Bool
  pub push : Bool
  pub sms : Bool
  pub webhook : Bool

-- `Partial<UserNotificationPreferences>`, and the stored ones: a field that is `none` is absent.
pub record PartialPreferences : Type 0 where
  pub email : Option Bool
  pub push : Option Bool
  pub sms : Option Bool
  pub webhook : Option Bool

pub record User : Type 0 where
  pub id : String
  pub email : String
  pub role : Option String
  pub is_premium : Bool
  pub subscription_type : Option String
  pub language : Option String
  pub phone_number : Option String
  pub webhook_url : Option String
  pub notification_preferences : PartialPreferences

pub data UserType : Type 0 where
  premium standard admin : UserType

pub data NotificationType : Type 0 where
  critical high normal low : NotificationType

pub data Priority : Type 0 where
  urgent high normal low : Priority

pub data TimeOfDay : Type 0 where
  peak normal off_peak : TimeOfDay

pub record NotificationContext : Type 0 where
  pub user_id : String
  pub user_type : UserType
  pub notification_type : NotificationType
  pub priority : Priority
  pub time_of_day : TimeOfDay

pub record SystemMetrics : Type 0 where
  pub queue_size : ℕ
  pub response_time : ℕ
  pub error_rate : ℕ
  pub active_connections : ℕ
  pub memory_usage : ℕ

-- `s` as a condition: an absent text and the empty one are false.
abbrev pub truthy : Option String → Bool
truthy none = false
truthy (some s) = if s === "" then false else true

-- `a || b` on texts
abbrev pub or_text : Option String → String → String
or_text none b = b
or_text (some a) b = if a === "" then b else a

-- `new Error(message)`
abbrev pub plain_error : String → Thrown
plain_error message = other (record {
  name = "Error";
  message = message;
  status_code = 0;
  code = ErrorCode.no_code;
  errors = [];
  key_value = [];
})

-- `error.message`
abbrev pub message_of : Thrown → String
message_of (application e) = e.message
message_of (other e) = e.message

module _ {World : Type 0} where
  abbrev pub fail_if : Bool → String → Action World (Unit {0})
  fail_if true message w = (err (plain_error message), w)
  fail_if false message w = (ok tt, w)

  abbrev pub or_fail : {A : Type 0} → Option A → String → Action World A
  or_fail none message w = (err (plain_error message), w)
  or_fail (some a) message w = (ok a, w)
