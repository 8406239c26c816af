-- ===== src/Notification/Tests.antt =====
-- The theorems on notifications at concrete inputs. The world is the records of notifications and
-- the list of what was sent; users, repository, queue and channels work in memory.
use qa_api.Common.{
  String, true, false, ◌≡◌, refl, ◌===◌, ◌↔◌, ◌≢◌, if◌then◌else◌, Option, none, some, List, [], ◌∷◌,
  arith, eq_refl,
}
use qa_api.Effect.{Outcome, ok, err, Action}
use qa_api.Notification.Payload.{
  text, NotificationPayload, MultiChannelNotificationPayload, UserPayload, User, PartialPreferences,
  SystemMetrics, plain_error,
}
use qa_api.Notification.Registry.{
  NotificationChannel, is_channel_supported, send_to_channel, get_channel,
}
use qa_api.Notification.Strategy.{get_strategy, create_context}
use qa_api.Notification.Direct
use qa_api.Notification.Direct.{UserService, channel_payload}
use qa_api.Notification.Queue
use qa_api.Notification.Queue.{
  QueueProvider, QueueMessage, single, multi, Senders, acked, requeued, rejected, consume, send_one,
  process_multi_channel_notification,
}
use qa_api.Notification.Consumed.{IsPutBack, consume_requeues_iff}
use qa_api.Notification.Fanout.{
  notify_to_multiple_channels_iff, Carries, direct_and_queue_send_alike,
}
use qa_api.Notification.Smart.{
  determine_notification_type, Status, sent, failed, NotificationRepository, Environment, notify,
  notify_user,
}
use qa_api.Notification.Settled.{IsRecorded, notify_user_settles, notify_always_queues}

abbrev World : Type 0
World = List (String × Status) × List String

abbrev status_in : List (String × Status) → String → Option Status
status_in [] id = none
status_in ((i, s) ∷ rows) id = if i === id then some s else status_in rows id

abbrev status_of : World → String → Option Status
status_of w id = status_in w.0 id

-- A record is written in front of the older ones.
abbrev repo : NotificationRepository World
repo = record {
  create_notification = λ n w. (ok "n1", (("n1", n.status) ∷ w.0, w.1));
  update_notification_status = λ id s d w. (ok true, ((id, s) ∷ w.0, w.1));
  get_template_by_name = λ name w. (ok none, w);
}

repo-IsRecorded : IsRecorded repo status_of
repo-IsRecorded = record {
  created = λ n w w' id h. ground (arith, eq_refl id);
  updated = λ id old new d w h. (refl, ground (arith, eq_refl id));
}

abbrev user : User
user = record {
  id = "u1";
  email = "a@b.c";
  role = none;
  is_premium = false;
  subscription_type = none;
  language = some "en";
  phone_number = none;
  webhook_url = none;
  notification_preferences = record { email = none; push = none; sms = none; webhook = none };
}

abbrev off : PartialPreferences
off = record { email = some false; push = some false; sms = some false; webhook = some false }

abbrev users_of : User → UserService World
users_of u = record {
  find_by_id = λ id w. (ok (some u), w);
  update_preferences = λ id p w. (ok tt, w);
}

abbrev provider : QueueProvider World
provider = record {
  create_exchange = λ name kind w. (ok tt, w);
  create_queue = λ name dead w. (ok tt, w);
  publish_to_queue = λ name m w. (ok true, (w.0, m.id ∷ w.1));
  get_queue_info = λ name w. (ok (record { message_count = 0; consumer_count = 0 }), w);
}

-- A channel that sends, and one that never does.
abbrev sends : String → NotificationPayload → Action World (Unit {0})
sends t p w = (ok tt, (w.0, t ∷ w.1))

abbrev breaks : NotificationPayload → Action World (Unit {0})
breaks p w = (err (plain_error "down"), w)

abbrev registry : List (NotificationChannel World)
registry =
    record { type = "email"; send = sends "email" } ∷ record { type = "push"; send = breaks } ∷ []

abbrev senders : Senders World
senders = record {
  email = sends "email";
  sms = sends "sms";
  push = breaks;
  webhook = sends "webhook";
}

abbrev calm : SystemMetrics
calm = record {
  queue_size = 0;
  response_time = 0;
  error_rate = 0;
  active_connections = 0;
  memory_usage = 0;
}

abbrev metrics : Action World SystemMetrics
metrics w = (ok calm, w)

abbrev env : Environment
env = record { smtp_user = some "me"; hour = 12; queue_id = "m1"; sent_id = "s1" }

abbrev body : UserPayload
body = record {
  subject = none;
  message = "Hello";
  html = none;
  details = ("type", text "CRITICAL") ∷ [];
}

abbrev many : List String → MultiChannelNotificationPayload
many cs = record {
  channels = cs;
  to = "a@b.c";
  subject = none;
  message = "Hello";
  html = none;
  details = [];
}

abbrev one : String → NotificationPayload
one c = record {
  channel = c;
  to = "a@b.c";
  user_id = some "u1";
  from = none;
  subject = none;
  message = "Hello";
  html = none;
  details = ("type", text "CRITICAL") ∷ [];
  tags = none;
}

abbrev start : World
start = ([], [])

abbrev pending_now : World
pending_now = (("n1", Status.pending) ∷ [], [])

-- A critical notification goes out by email at once; push fails, so the record says failed.
notify_user_settles_example :
    let (r, w) = notify_user (users_of user) provider registry repo metrics env "u1" body start in
    (r ≡ (Direct.notify_user (users_of user) registry "u1" body pending_now).0)
    × (status_of w "n1" ≡ some failed)
unfolding Direct.notify_user get_strategy create_context determine_notification_type
notify_user_settles_example =
    notify_user_settles (users_of user) provider registry repo metrics env status_of repo-IsRecorded
      "u1" user body _ start start start pending_now "n1" refl refl refl refl refl

-- The same by `notify` waits in the queue, and its record says sent.
notify_always_queues_example :
    let (r, w) = notify (users_of user) provider registry repo metrics env (one "email") start in
    (r ≡ ok tt)
    × (w ≡ (("n1", sent) ∷ ("n1", Status.pending) ∷ [], "m1" ∷ []))
    × (status_of w "n1" ≡ some sent)
unfolding Queue.notify
notify_always_queues_example =
    notify_always_queues (users_of user) provider registry repo metrics env status_of
      repo-IsRecorded (one "email") _ start start pending_now "n1" refl refl refl refl

abbrev queued : Queue.Notice → QueueMessage
queued n = record { id = "m1"; payload = n; user_id = none; user_language = none; priority = 1 }

-- Bodies that are messages already, apart from the broken one.
abbrev parsed : Option QueueMessage → Outcome QueueMessage
parsed none = err (plain_error "Unexpected token")
parsed (some m) = ok m

consume_requeues_iff_example :
    let m = queued (single (one "push")) in
    let verdict = (consume parsed senders (Queue.body (some m)) start).0 in
    (verdict ≡ some requeued ↔ IsPutBack parsed senders (some m) start)
    × (verdict ≡ some acked ↔ (IsPutBack parsed senders (some m) start → ⊥))
    × (verdict ≢ some rejected)
consume_requeues_iff_example =
    consume_requeues_iff parsed senders (some (queued (single (one "push")))) start

notify_to_multiple_channels_iff_example :
    let (r, w) =
      Direct.notify_to_multiple_channels
        (users_of user)
        registry
        (many ("sms" ∷ "push" ∷ "email" ∷ []))
        start in
    (w ≡ ([], "email" ∷ [])) × ((r ≡ ok tt) ↔ ((false ≡ false) × (false ≡ true)))
unfolding send_to_channel get_channel is_channel_supported
notify_to_multiple_channels_iff_example =
    notify_to_multiple_channels_iff (users_of user) registry (many ("sms" ∷ "push" ∷ "email" ∷ []))
      start

sends-email :
    (p : NotificationPayload) (w : World)
    → p.channel ≡ "email"
    → sends "email" p w ≡ send_one senders p w
sends-email p w h = rw h refl

breaks-push :
    (p : NotificationPayload) (w : World) → p.channel ≡ "push" → breaks p w ≡ send_one senders p w
breaks-push p w h = rw h refl

carries : Carries registry senders ("push" ∷ "email" ∷ [])
unfolding send_to_channel get_channel is_channel_supported
carries = ((refl, breaks-push), ((refl, sends-email), tt))

direct_and_queue_send_alike_example :
    let (r, w) =
      Direct.notify_to_multiple_channels
        (users_of user)
        registry
        (many ("push" ∷ "email" ∷ []))
        start in
    let (r', w') =
      process_multi_channel_notification senders (many ("push" ∷ "email" ∷ [])) start in
    (w ≡ w') × (r' ≡ ok tt) × ((r ≡ ok tt) ↔ ((false ≡ false) × (false ≡ true)))
unfolding send_to_channel get_channel
direct_and_queue_send_alike_example =
    direct_and_queue_send_alike (users_of user) registry senders (many ("push" ∷ "email" ∷ []))
      start carries

abbrev silent : User
silent = record user { notification_preferences = off }
