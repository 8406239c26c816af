-- ===== src/Notification/Smart.antt =====
-- services/managers/SmartNotificationManager.ts. The environment, the clock and the repository of
-- notifications are parameters; logging is left out.
use qa_api.Common.{
  ℕ, String, Bool, not, ◌===◌, ◌||◌, ◌+++◌, if◌then◌else◌, Option, none, some, List, [],
}
use qa_api.Effect.{ok, err, Action, ◌>>=◌, ◌>>◌}
use qa_api.Error.Handler.{Thrown}
use qa_api.Notification.Payload.{
  Details, Value, text, field, is_text, tags_of, NotificationPayload,
  MultiChannelNotificationPayload, UserPayload, User, UserNotificationPreferences,
  PartialPreferences, UserType, NotificationType, Priority, SystemMetrics, NotificationContext,
  message_of, fail_if, or_fail, truthy, or_text,
}
use qa_api.Notification.Registry.{NotificationChannel}
use qa_api.Notification.Strategy.{Route, direct, queue, get_strategy, create_context}
use qa_api.Notification.Direct
use qa_api.Notification.Direct.{UserService, no_user}
use qa_api.Notification.Queue
use qa_api.Notification.Queue.{QueueProvider}

-- `status` of models/interfaces/INotificationModel.ts
pub data Status : Type 0 where
  pending sent failed delivered read : Status

pub record NewNotification : Type 0 where
  pub user_id : String
  pub type : String
  pub status : Status
  pub subject : Option String
  pub message : String
  pub html : Option String
  pub from : String
  pub to : String
  pub strategy : Route
  pub priority : Priority
  pub tags : List String

-- The third argument of `updateNotificationStatus`.
pub record StatusData : Type 0 where
  pub message_id : Option String
  pub error_message : Option String
  pub error_code : Option String

-- A text of a template by its locale; `en` is always there.
pub record LocalText : Type 0 where
  pub in_locale : String → Option String
  pub en : String

pub record Template : Type 0 where
  pub is_active : Bool
  pub subject : LocalText
  pub message : LocalText
  pub html : Option LocalText

-- `INotificationRepository`, as far as the manager calls it; `create` gives the new id.
pub record NotificationRepository (World : Type 0) : Type 0 where
  pub create_notification : NewNotification → Action World String
  pub update_notification_status : String → Status → StatusData → Action World Bool
  pub get_template_by_name : String → Action World (Option Template)

-- `SMTP_USER`, the hour, `generateMessageId()` and `msg_${Date.now()}` during a call.
pub record Environment : Type 0 where
  pub smtp_user : Option String
  pub hour : ℕ
  pub queue_id : String
  pub sent_id : String

unfoldable pub determine_user_type : User → UserType
determine_user_type u =
    if is_text "admin" (elim u.role [ none ↦ Value.undefined | some r ↦ text r ])
    then UserType.admin
    else if u.is_premium
        || is_text "premium" (elim u.subscription_type [ none ↦ Value.undefined | some s ↦ text s ])
    then UserType.premium
    else UserType.standard

unfoldable pub determine_notification_type : Details → NotificationType
determine_notification_type d =
    if is_text "CRITICAL" (field "type" d)
    then NotificationType.critical
    else if is_text "HIGH" (field "type" d)
    then NotificationType.high
    else if is_text "LOW" (field "type" d)
    then NotificationType.low
    else NotificationType.normal

unfoldable pub determine_priority : Details → Priority
determine_priority d =
    if is_text "urgent" (field "priority" d)
    then Priority.urgent
    else if is_text "high" (field "priority" d)
    then Priority.high
    else if is_text "low" (field "priority" d)
    then Priority.low
    else Priority.normal

unfoldable pub create_default_context : ℕ → NotificationContext
unfolding create_context
create_default_context hour =
    create_context hour "unknown" UserType.standard NotificationType.normal Priority.normal

-- `text[locale] || text.en`
abbrev localized : LocalText → String → String
localized t locale = or_text (t.in_locale locale) t.en

module _ {World : Type 0} (users : UserService World) (provider : QueueProvider World)
    (registry : List (NotificationChannel World)) (repo : NotificationRepository World)
    (metrics : Action World SystemMetrics) (env : Environment) where
  abbrev pub sent_data : StatusData
  sent_data = record { message_id = some env.sent_id; error_message = none; error_code = none }

  abbrev pub failed_data : Thrown → StatusData
  failed_data e = record {
    message_id = none;
    error_message = some (message_of e);
    error_code = some "SEND_FAILED";
  }

  -- The `try … catch` that follows the creation of the notification: the status is written after
  -- the delivery, and what is thrown before or by that write is thrown again.
  unfoldable pub settle : String → Action World (Unit {0}) → Action World (Unit {0})
  settle id deliver w =
      let (r, w') = (do deliver; repo.update_notification_status id sent sent_data) w in
      elim r [
        | ok _ ↦ (ok tt, w')
        | err e ↦ (do repo.update_notification_status id failed (failed_data e); λ v. (err e, v)) w'
      ]

  abbrev user_of : NotificationPayload → NotificationContext → String
  user_of p c = or_text p.user_id c.user_id

  abbrev smtp : Option String → String
  smtp none = ""
  smtp (some s) = s

  abbrev pub single_record : NotificationPayload → NotificationContext → Route → NewNotification
  single_record p c route = record {
    user_id = user_of p c;
    type = p.channel;
    status = pending;
    subject = p.subject;
    message = p.message;
    html = p.html;
    from = or_text p.from (smtp env.smtp_user);
    to = p.to;
    strategy = route;
    priority = determine_priority p.details;
    tags = elim p.tags [ none ↦ [] | some ts ↦ ts ];
  }

  abbrev pub need_smtp : Action World (Unit {0})
  need_smtp = fail_if (not (truthy env.smtp_user)) "SMTP_USER environment variable is required"

  abbrev pub deliver_single : Route → NotificationPayload → Action World (Unit {0})
  deliver_single queue p = Queue.notify users provider env.queue_id p
  deliver_single direct p = Direct.notify users registry p

  unfoldable pub notify : NotificationPayload → Action World (Unit {0})
  unfolding settle create_default_context get_strategy determine_priority
  notify p = do
    m ← metrics
    need_smtp
    let c = create_default_context env.hour
    let route = get_strategy c m
    id ← repo.create_notification (single_record p c route)
    settle id (deliver_single route p)

  abbrev pub deliver_multi : Route → MultiChannelNotificationPayload → Action World (Unit {0})
  deliver_multi queue p = Queue.notify_to_multiple_channels users provider env.queue_id p
  deliver_multi direct p = Direct.notify_to_multiple_channels users registry p

  unfoldable pub notify_to_multiple_channels :
      MultiChannelNotificationPayload → Action World (Unit {0})
  unfolding create_default_context get_strategy
  notify_to_multiple_channels p = do
    m ← metrics
    deliver_multi (get_strategy (create_default_context env.hour) m) p

  abbrev pub user_record : User → String → UserPayload → Route → NewNotification
  user_record u user_id p route = record {
    user_id = user_id;
    type = "email";
    status = pending;
    subject = p.subject;
    message = p.message;
    html = p.html;
    from = smtp env.smtp_user;
    to = u.email;
    strategy = route;
    priority = determine_priority p.details;
    tags = tags_of (field "tags" p.details);
  }

  abbrev pub deliver_user : Route → String → UserPayload → Action World (Unit {0})
  deliver_user queue user_id p = Queue.notify_user users provider env.queue_id user_id p
  deliver_user direct user_id p = Direct.notify_user users registry user_id p

  abbrev pub context_of : User → String → UserPayload → NotificationContext
  context_of u user_id p =
      create_context env.hour user_id (determine_user_type u)
        (determine_notification_type p.details) (determine_priority p.details)

  unfoldable pub notify_user : String → UserPayload → Action World (Unit {0})
  unfolding settle create_context get_strategy determine_user_type determine_notification_type
      determine_priority
  notify_user user_id p = do
    found ← users.find_by_id user_id
    u ← or_fail found (no_user user_id)
    m ← metrics
    need_smtp
    let route = get_strategy (context_of u user_id p) m
    id ← repo.create_notification (user_record u user_id p route)
    settle id (deliver_user route user_id p)

  unfoldable pub get_user_notification_preferences :
      String → Action World UserNotificationPreferences
  get_user_notification_preferences user_id =
      Queue.get_user_notification_preferences users provider user_id

  unfoldable pub update_user_notification_preferences :
      String → PartialPreferences → Action World (Unit {0})
  update_user_notification_preferences user_id p =
      Queue.update_user_notification_preferences users provider user_id p

  -- `fill` is the loop of `replace(new RegExp(…, 'g'), …)` over the variables.
  module _ (fill : Details → String → String) where
    abbrev filled : Template → String → Details → UserPayload
    filled t locale variables = record {
      subject = some (fill variables (localized t.subject locale));
      message = fill variables (localized t.message locale);
      html = elim t.html [
        | none ↦ none
        | some h ↦
            if localized h locale === ""
            then some ""
            else some (fill variables (localized h locale))
      ];
      details = variables;
    }

    unfoldable pub notify_user_with_template :
        String → String → String → Details → Action World (Unit {0})
    unfolding notify_user
    notify_user_with_template user_id name locale variables = do
      found ← repo.get_template_by_name name
      t ← or_fail found ("Template '" +++ name +++ "' not found")
      fail_if (not t.is_active) ("Template '" +++ name +++ "' is not active")
      u ← users.find_by_id user_id
      or_fail u ("User '" +++ user_id +++ "' not found")
      notify_user user_id (filled t locale variables)
