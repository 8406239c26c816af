-- ===== src/Notification/Settled.antt =====
-- What becomes of the record of a notification (services/managers/SmartNotificationManager.ts).
use qa_api.Common.{
  String, true, false, ◌≡◌, ◌↔◌, ◌&&◌, ◌||◌, Option, some, List, arith, inl, inr, ◌∙◌,
}
use qa_api.Effect.{Outcome, ok, err, Outcome-cases, Action}
use qa_api.Notification.Payload.{
  NotificationPayload, UserPayload, User, SystemMetrics, NotificationContext, truthy,
}
use qa_api.Notification.Registry.{NotificationChannel}
use qa_api.Notification.Strategy.{
  queue, get_strategy, create_context, should_use_queue, is_critical, is_premium, is_urgent,
}
use qa_api.Notification.Direct.{UserService}
use qa_api.Notification.Queue
use qa_api.Notification.Queue.{QueueProvider}
use qa_api.Notification.Smart.{
  sent_data, failed_data, NewNotification, StatusData, Status, pending, sent, failed,
  NotificationRepository, Environment, settle, notify, notify_user, single_record, user_record,
  deliver_user, context_of, create_default_context,
}

-- Whatever the metrics are, a notification goes through the queue exactly when it is neither
-- critical nor an urgent one to a premium user.
pub get_strategy_iff :
    (c : NotificationContext) (m : SystemMetrics)
    → (get_strategy c m ≡ queue) ↔ (
        (is_critical c.notification_type || (is_premium c.user_type && is_urgent c.priority))
        ≡ false)
unfolding get_strategy should_use_queue
get_strategy_iff c m = ground arith

-- What the repository of notifications promises: a new record has the status it was made with, and
-- writing the status of a record that is there succeeds.
pub record IsRecorded {World : Type 0} (repo : NotificationRepository World)
    (status_of : World → String → Option Status) : Type 0 where
  pub created :
      (n : NewNotification) (w w' : World) (id : String)
      → repo.create_notification n w ≡ (ok id, w')
      → status_of w' id ≡ some n.status
  pub updated :
      (id : String) (old new : Status) (d : StatusData) (w : World)
      → status_of w id ≡ some old
      → ((repo.update_notification_status id new d w).0 ≡ ok true)
        × (status_of (repo.update_notification_status id new d w).1 id ≡ some new)

abbrev pub status_after : Outcome (Unit {0}) → Status
status_after (ok _) = sent
status_after (err _) = failed

module _ {World : Type 0} (users : UserService World) (provider : QueueProvider World)
    (registry : List (NotificationChannel World)) (repo : NotificationRepository World)
    (metrics : Action World SystemMetrics) (env : Environment)
    (status_of : World → String → Option Status) (recorded : IsRecorded repo status_of) where
  settle-settles :
      (id : String) (deliver : Action World (Unit {0})) (w : World) (old : Status)
      → status_of (deliver w).1 id ≡ some old
      → let (r, w') = settle users provider registry repo metrics env id deliver w in
        (r ≡ (deliver w).0) × (status_of w' id ≡ some (status_after (deliver w).0))
  unfolding settle
  settle-settles id deliver w old h = elim (Outcome-cases (deliver w).0) [
    | inl (_, e) ↦
        let (done, now) =
          recorded.updated id old sent (sent_data users provider registry repo metrics env)
            (deliver w).1 h in
        ground arith
    | inr (x, e) ↦
        let (done, now) =
          recorded.updated id old failed (failed_data users provider registry repo metrics env x)
            (deliver w).1 h in
        ground arith
  ]

  -- How `notify` and `notifyUser` come to the delivery.
  notify-runs :
      (p : NotificationPayload) (m : SystemMetrics) (w w1 w2 : World) (id : String)
      → metrics w ≡ (ok m, w1)
      → truthy env.smtp_user ≡ true
      → let c = create_default_context env.hour in
        (repo.create_notification
            (single_record users provider registry repo metrics env p c queue)
            w1
          ≡ (ok id, w2))
        → notify users provider registry repo metrics env p w
          ≡ settle users provider registry repo metrics env id
              (Queue.notify users provider env.queue_id p)
              w2
  unfolding notify create_default_context create_context get_strategy should_use_queue
  notify-runs p m w w1 w2 id measured smtp made = ground arith

  notify_user-runs :
      (user_id : String) (u : User) (p : UserPayload) (m : SystemMetrics) (w w1 w2 w3 : World)
      (id : String)
      → users.find_by_id user_id w ≡ (ok (some u), w1)
      → metrics w1 ≡ (ok m, w2)
      → truthy env.smtp_user ≡ true
      → let route =
          get_strategy (context_of users provider registry repo metrics env u user_id p) m in
        (repo.create_notification
            (user_record users provider registry repo metrics env u user_id p route)
            w2
          ≡ (ok id, w3))
        → notify_user users provider registry repo metrics env user_id p w
          ≡ settle users provider registry repo metrics env id
              (deliver_user users provider registry repo metrics env
                (get_strategy (context_of users provider registry repo metrics env u user_id p) m)
                user_id
                p)
              w3
  unfolding notify_user
  notify_user-runs user_id u p m w w1 w2 w3 id found measured smtp made = ground arith

  -- A notification to a user that exists is settled: where the metrics and the creation of the
  -- record succeed, SMTP_USER is set and the delivery leaves the record alone, the call returns or
  -- throws as the delivery does, by the route of the strategy, and the record ends as sent or
  -- failed accordingly, not pending.
  pub notify_user_settles :
      (user_id : String) (u : User) (p : UserPayload) (m : SystemMetrics) (w w1 w2 w3 : World)
      (id : String)
      → users.find_by_id user_id w ≡ (ok (some u), w1)
      → metrics w1 ≡ (ok m, w2)
      → truthy env.smtp_user ≡ true
      → let route =
          get_strategy (context_of users provider registry repo metrics env u user_id p) m in
        (repo.create_notification
            (user_record users provider registry repo metrics env u user_id p route)
            w2
          ≡ (ok id, w3))
        → let route =
            get_strategy (context_of users provider registry repo metrics env u user_id p) m in
          let delivery = deliver_user users provider registry repo metrics env route user_id p in
          status_of (delivery w3).1 id ≡ status_of w3 id
          → let route =
              get_strategy (context_of users provider registry repo metrics env u user_id p) m in
            let delivered =
              (deliver_user users provider registry repo metrics env route user_id p w3).0 in
            let (r, w') = notify_user users provider registry repo metrics env user_id p w in
            (r ≡ delivered) × (status_of w' id ≡ some (status_after delivered))
  notify_user_settles user_id u p m w w1 w2 w3 id found measured smtp made kept =
      let route =
        get_strategy (context_of users provider registry repo metrics env u user_id p) m in
      rw (notify_user-runs user_id u p m w w1 w2 w3 id found measured smtp made) (
        settle-settles id (deliver_user users provider registry repo metrics env route user_id p) w3
          pending
          (kept
            ∙ recorded.created
                (user_record users provider registry repo metrics env u user_id p route) w2 w3 id
                made))

  -- What is written beside the status.
  abbrev pub data_after : Outcome (Unit {0}) → StatusData
  data_after (ok _) = sent_data users provider registry repo metrics env
  data_after (err e) = failed_data users provider registry repo metrics env e

  settle-world :
      (id : String) (deliver : Action World (Unit {0})) (w : World) (old : Status)
      → status_of (deliver w).1 id ≡ some old
      → let (r, w') = deliver w in
        (settle users provider registry repo metrics env id deliver w).1
        ≡ (repo.update_notification_status id (status_after r) (data_after r) w').1
  unfolding settle
  settle-world id deliver w old h = elim (Outcome-cases (deliver w).0) [
    | inl (_, e) ↦
        let (done, now) =
          recorded.updated id old sent (sent_data users provider registry repo metrics env)
            (deliver w).1 h in
        ground arith
    | inr (x, e) ↦
        let (done, now) =
          recorded.updated id old failed (failed_data users provider registry repo metrics env x)
            (deliver w).1 h in
        ground arith
  ]

  -- `notify` sends every notification through the queue and none directly, also one that its
  -- payload calls critical or urgent: where the metrics and the creation of the record succeed,
  -- SMTP_USER is set and the queue leaves the record alone, the call answers as the queue's manager
  -- does, all that happens after the creation is its call and then the write of the status, and the
  -- record ends as sent when the queue takes the message and as failed when it throws.
  pub notify_always_queues :
      (p : NotificationPayload) (m : SystemMetrics) (w w1 w2 : World) (id : String)
      → metrics w ≡ (ok m, w1)
      → truthy env.smtp_user ≡ true
      → let c = create_default_context env.hour in
        (repo.create_notification
            (single_record users provider registry repo metrics env p c queue)
            w1
          ≡ (ok id, w2))
        → status_of (Queue.notify users provider env.queue_id p w2).1 id ≡ status_of w2 id
        → let (queued, w3) = Queue.notify users provider env.queue_id p w2 in
          let (r, w') = notify users provider registry repo metrics env p w in
          (r ≡ queued)
          × (w'
              ≡ (repo.update_notification_status id (status_after queued) (data_after queued) w3).1)
          × (status_of w' id ≡ some (status_after queued))
  notify_always_queues p m w w1 w2 id measured smtp made kept =
      let c = create_default_context env.hour in
      let was : status_of (Queue.notify users provider env.queue_id p w2).1 id ≡ some pending =
        kept
        ∙ recorded.created (single_record users provider registry repo metrics env p c queue) w1 w2
            id made in
      let (answer, status) =
        settle-settles id (Queue.notify users provider env.queue_id p) w2 pending was in
      let world = settle-world id (Queue.notify users provider env.queue_id p) w2 pending was in
      rw (notify-runs p m w w1 w2 id measured smtp made) (answer, world, status)
