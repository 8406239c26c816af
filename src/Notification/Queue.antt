-- ===== src/Notification/Queue.antt =====
-- services/managers/QueueBasedNotificationManager.ts, and the consumer's callback in
-- services/providers/RabbitMQProvider.ts. The queue's server and the container that the channels
-- are taken from are parameters; times and logging are left out.
use qa_api.Common.{
  ℕ, String, Bool, true, false, ◌===◌, if◌then◌else◌, Option, none, some, List, [], ◌∷◌,
}
use qa_api.Effect.{Outcome, ok, err, Action, pure, ◌>>=◌, ◌>>◌}
use qa_api.Notification.Payload.{
  Details, field, is_text, NotificationPayload, MultiChannelNotificationPayload, UserPayload, User,
  UserNotificationPreferences, PartialPreferences, or_fail,
}
use qa_api.Notification.Direct.{
  UserService, active_channels, user_payload, channel_payload, no_user, is_empty,
}

pub data Notice : Type 0 where
  single : NotificationPayload → Notice
  multi : MultiChannelNotificationPayload → Notice

-- `NotificationQueueMessage`
pub record QueueMessage : Type 0 where
  pub id : String
  pub payload : Notice
  pub user_id : Option String
  pub user_language : Option String
  pub priority : ℕ

pub record QueueInfo : Type 0 where
  pub message_count : ℕ
  pub consumer_count : ℕ

pub record QueueStatus : Type 0 where
  pub message_count : ℕ
  pub consumer_count : ℕ
  pub dead_letter_count : ℕ

-- `IQueueProvider`, as far as the manager calls it. A queue may name the exchange and the key that
-- rejected messages go to.
pub record QueueProvider (World : Type 0) : Type 0 where
  pub create_exchange : String → String → Action World (Unit {0})
  pub create_queue : String → Option (String × String) → Action World (Unit {0})
  pub publish_to_queue : String → QueueMessage → Action World Bool
  pub get_queue_info : String → Action World QueueInfo

-- The channels that the consumer takes from the container: `send` of each.
pub record Senders (World : Type 0) : Type 0 where
  pub email : NotificationPayload → Action World (Unit {0})
  pub sms : NotificationPayload → Action World (Unit {0})
  pub push : NotificationPayload → Action World (Unit {0})
  pub webhook : NotificationPayload → Action World (Unit {0})

unfoldable pub get_priority : Details → ℕ
get_priority d =
    if is_text "urgent" (field "priority" d)
    then 10
    else if is_text "high" (field "priority" d)
    then 8
    else if is_text "normal" (field "priority" d)
    then 5
    else 1

abbrev notification_queue : String
notification_queue = "notifications"

abbrev dead_letter_queue : String
dead_letter_queue = "notifications.dlq"

abbrev dead_letter_exchange : String
dead_letter_exchange = "notification.dlx"

-- `id` is `generateMessageId()`, a parameter of each call.
module _ {World : Type 0} (users : UserService World) (provider : QueueProvider World) where
  unfoldable pub initialize : Action World (Unit {0})
  initialize = do
    provider.create_exchange dead_letter_exchange "direct"
    provider.create_queue dead_letter_queue none
    provider.create_exchange "notification.exchange" "topic"
    provider.create_queue notification_queue (some (dead_letter_exchange, dead_letter_queue))

  -- The answer of `publishToQueue` is not read.
  abbrev pub publish : QueueMessage → Action World (Unit {0})
  publish m = do provider.publish_to_queue notification_queue m; pure tt

  abbrev message : String → Notice → Details → QueueMessage
  message id notice details = record {
    id = id;
    payload = notice;
    user_id = none;
    user_language = none;
    priority = get_priority details;
  }

  unfoldable pub notify : String → NotificationPayload → Action World (Unit {0})
  unfolding get_priority
  notify id p = publish (message id (single p) p.details)

  unfoldable pub notify_to_multiple_channels :
      String → MultiChannelNotificationPayload → Action World (Unit {0})
  unfolding get_priority
  notify_to_multiple_channels id p = publish (message id (multi p) p.details)

  abbrev pub default_preferences : UserNotificationPreferences
  default_preferences = record { email = true; push = false; sms = false; webhook = false }

  unfoldable pub get_user_notification_preferences :
      String → Action World UserNotificationPreferences
  get_user_notification_preferences user_id = do
    found ← users.find_by_id user_id
    or_fail found (no_user user_id)
    pure default_preferences

  -- Nothing is written.
  unfoldable pub update_user_notification_preferences :
      String → PartialPreferences → Action World (Unit {0})
  update_user_notification_preferences user_id p = do
    found ← users.find_by_id user_id
    or_fail found (no_user user_id)
    pure tt

  abbrev user_message : String → User → String → MultiChannelNotificationPayload → QueueMessage
  user_message id u user_id p = record {
    id = id;
    payload = multi p;
    user_id = some user_id;
    user_language = u.language;
    priority = get_priority p.details;
  }

  abbrev pub publish_to :
      String → User → String → List String → UserPayload → Action World (Unit {0})
  publish_to id u user_id channels p =
      let m = user_message id u user_id (user_payload u user_id channels p) in
      if is_empty channels then pure tt else publish m

  unfoldable pub notify_user : String → String → UserPayload → Action World (Unit {0})
  unfolding get_priority active_channels user_payload get_user_notification_preferences
  notify_user id user_id p = do
    found ← users.find_by_id user_id
    u ← or_fail found (no_user user_id)
    preferences ← get_user_notification_preferences user_id
    publish_to id u user_id (active_channels u preferences) p

  unfoldable pub get_queue_status : Action World QueueStatus
  get_queue_status = do
    main ← provider.get_queue_info notification_queue
    dead ← provider.get_queue_info dead_letter_queue
    pure (record {
      message_count = main.message_count;
      consumer_count = main.consumer_count;
      dead_letter_count = dead.message_count;
    })

-- What the provider tells the queue's server after a message.
pub data Verdict : Type 0 where
  acked requeued rejected : Verdict

module _ {World : Type 0} (senders : Senders World) where
  unfoldable pub process_single_channel_notification : NotificationPayload → Action World (Unit {0})
  process_single_channel_notification p w =
      if p.channel === "email"
      then senders.email p w
      else if p.channel === "sms"
      then senders.sms p w
      else if p.channel === "push"
      then senders.push p w
      else pure tt w

  -- One channel of the loop, before its `catch`.
  abbrev pub send_one : NotificationPayload → Action World (Unit {0})
  send_one p w =
      if p.channel === "email"
      then senders.email p w
      else if p.channel === "sms"
      then senders.sms p w
      else if p.channel === "push"
      then senders.push p w
      else if p.channel === "webhook"
      then senders.webhook p w
      else pure tt w

  abbrev pub send_each : MultiChannelNotificationPayload → List String → Action World (Unit {0})
  send_each p [] w = (ok tt, w)
  send_each p (c ∷ cs) w = send_each p cs (send_one (channel_payload p c) w).1

  unfoldable pub process_multi_channel_notification :
      MultiChannelNotificationPayload → Action World (Unit {0})
  process_multi_channel_notification p = send_each p p.channels

  unfoldable pub process_notification_message : QueueMessage → Action World (Unit {0})
  unfolding process_single_channel_notification process_multi_channel_notification
  process_notification_message m w = elim m.payload [
    | single p ↦ process_single_channel_notification p w
    | multi p ↦ process_multi_channel_notification p w
  ]

  -- The handler's outcome inside the `try`: a body that is no message throws before the handler.
  unfoldable pub handled : Outcome QueueMessage → World → Outcome (Unit {0}) × World
  unfolding process_notification_message
  handled (err e) w = (err e, w)
  handled (ok m) w = process_notification_message m w

-- What the server hands to the consumer: nothing, when the consumer is cancelled, or a body.
pub data Received (Body : Type 0) : Type 0 where
  nothing : Received Body
  body : Body → Received Body

-- `parse` is `JSON.parse(msg.content.toString())`, which throws on a body that is no JSON. The
-- consumer is not started with `noAck`.
module _ {World Body : Type 0} (parse : Body → Outcome QueueMessage) (senders : Senders World) where
  -- `consume`: a body is acknowledged when it is parsed and the handler returns, and put back when
  -- either throws; for nothing, nothing is told.
  unfoldable pub consume : Received Body → World → Option Verdict × World
  unfolding handled
  consume nothing w = (none, w)
  consume (body b) w =
      let (r, w') = handled senders (parse b) w in
      (some (elim r [ ok _ ↦ acked | err _ ↦ requeued ]), w')
