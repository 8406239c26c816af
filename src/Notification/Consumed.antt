-- ===== src/Notification/Consumed.antt =====
-- What becomes of a message on the queue (services/managers/QueueBasedNotificationManager.ts and
-- services/providers/RabbitMQProvider.ts).
use qa_api.Common.{
  some, String, true, false, ◌≡◌, refl, ◌===◌, ◌↔◌, ◌⊎◌, ◌≢◌, List, [], ◌∷◌, arith, inl, inr,
  Bool-cases, eq_iff, ap, sym,
}
use qa_api.Effect.{Outcome, ok, err, Outcome-cases, Action}
use qa_api.Error.Handler.{Thrown}
use qa_api.Notification.Payload.{NotificationPayload, MultiChannelNotificationPayload}
use qa_api.Notification.Direct.{channel_payload}
use qa_api.Notification.Queue.{
  Notice, single, multi, QueueMessage, Senders, acked, requeued, rejected, consume, handled, body,
  process_notification_message, process_single_channel_notification,
  process_multi_channel_notification, send_one, send_each,
}

Notice-cases :
    (n : Notice)
    → ((p : NotificationPayload) × (n ≡ single p))
      ⊎ ((p : MultiChannelNotificationPayload) × (n ≡ multi p))
Notice-cases (single p) = inl (p, refl)
Notice-cases (multi p) = inr (p, refl)

-- One send after the other, whatever each of them answers.
abbrev pub visit :
    {World : Type 0} → (String → Action World (Unit {0})) → List String → World → World
visit send [] w = w
visit send (c ∷ cs) w = visit send cs (send c w).1

module _ {World : Type 0} (senders : Senders World) where
  pub send_each-visit :
      (p : MultiChannelNotificationPayload) (cs : List String) (w : World)
      → send_each senders p cs w ≡ (ok tt, visit (λ c. send_one senders (channel_payload p c)) cs w)
  send_each-visit p [] w = refl
  send_each-visit p (c ∷ cs) w = send_each-visit p cs (send_one senders (channel_payload p c) w).1

  single_sends :
      (p : NotificationPayload) (w : World)
      → (p.channel === "webhook") ≡ false
      → process_single_channel_notification senders p w ≡ send_one senders p w
  unfolding process_single_channel_notification
  single_sends p w ne = ground arith

  single_drops_webhook :
      (p : NotificationPayload) (w : World)
      → (p.channel === "webhook") ≡ true
      → process_single_channel_notification senders p w ≡ (ok tt, w)
  unfolding process_single_channel_notification
  single_drops_webhook p w is =
      let it : p.channel ≡ "webhook" = ground (arith, eq_iff p.channel "webhook") in rw it refl

  -- A message to several channels is handled with one send to each of them in turn, whichever
  -- sends fail.
  multi_returns :
      (m : QueueMessage) (p : MultiChannelNotificationPayload) (w : World)
      → m.payload ≡ multi p
      → process_notification_message senders m w
        ≡ (ok tt, visit (λ c. send_one senders (channel_payload p c)) p.channels w)
  unfolding process_notification_message process_multi_channel_notification
  multi_returns m p w e = ground (arith, send_each-visit p p.channels w)

  -- A message for one channel that is not webhook, and whose send throws.
  abbrev pub FailsAlone : QueueMessage → World → Type 0
  FailsAlone m w =
      (p : NotificationPayload) × (m.payload ≡ single p)
      × ((p.channel === "webhook") ≡ false)
      × (e : Thrown) × ((send_one senders p w).0 ≡ err e)

  abbrev Throws : QueueMessage → World → Type 0
  Throws m w = (e : Thrown) × ((process_notification_message senders m w).0 ≡ err e)

  single_outcome :
      (m : QueueMessage) (p : NotificationPayload) (w : World)
      → m.payload ≡ single p
      → (Throws m w × FailsAlone m w)
        ⊎ ((process_notification_message senders m w).0 ≡ ok tt × (FailsAlone m w → ⊥))
  unfolding process_notification_message
  single_outcome m p w is = elim (Bool-cases (p.channel === "webhook")) [
    | inl web ↦
        inr (ground (arith, single_drops_webhook p w web), λ (q, is', ne, e, fails). ground arith)
    | inr ne ↦ elim (Outcome-cases (send_one senders p w).0) [
      | inl (_, sent) ↦
          inr (ground (arith, single_sends p w ne), λ (q, is', ne', e, fails). ground arith)
      | inr (e, fails) ↦ inl ((e, ground (arith, single_sends p w ne)), (p, is, ne, e, fails))
    ]
  ]

  message_outcome :
      (m : QueueMessage) (w : World)
      → (Throws m w × FailsAlone m w)
        ⊎ ((process_notification_message senders m w).0 ≡ ok tt × (FailsAlone m w → ⊥))
  message_outcome m w = elim (Notice-cases m.payload) [
    | inl (p, is) ↦ single_outcome m p w is
    | inr (p, is) ↦
        inr (ap (λ r. r.0) (multi_returns m p w is), λ (q, is', ne, e, fails). ground arith)
  ]

module _ {World Body : Type 0} (parse : Body → Outcome QueueMessage) (senders : Senders World) where
  -- What is put back: a body that is no message, or a message for one channel other than webhook
  -- whose send throws.
  abbrev pub IsPutBack : Body → World → Type 0
  IsPutBack b w =
      ((e : Thrown) × (parse b ≡ err e))
      ⊎ ((m : QueueMessage) × (parse b ≡ ok m) × FailsAlone senders m w)

  consume_outcome :
      (b : Body) (w : World)
      → ((consume parse senders (body b) w).0 ≡ some requeued × IsPutBack b w)
        ⊎ ((consume parse senders (body b) w).0 ≡ some acked × (IsPutBack b w → ⊥))
  unfolding consume handled
  consume_outcome b w = elim (Outcome-cases (parse b)) [
    | inr (e, bad) ↦ inl (ground arith, inl (e, bad))
    | inl (m, good) ↦ elim (message_outcome senders m w) [
      | inl ((e, throws), fails) ↦ inl (ground arith, inr (m, good, fails))
      | inr (done, fine) ↦ inr (
        ground arith,
        λ put_back. elim put_back [
          | inl (e, bad) ↦ absurd (ground arith)
          | inr (m', good', fails) ↦ let same : m' ≡ m = ground arith in fine (rw (sym same) fails)
        ],
      )
    ]
  ]

  -- A body from the queue is put back exactly when it cannot be parsed, or is a message for one
  -- channel other than webhook whose send throws; in every other case it is acknowledged, and none
  -- is rejected.
  pub consume_requeues_iff :
      (b : Body) (w : World)
      → let verdict = (consume parse senders (body b) w).0 in
        (verdict ≡ some requeued ↔ IsPutBack b w)
        × (verdict ≡ some acked ↔ (IsPutBack b w → ⊥))
        × (verdict ≢ some rejected)
  consume_requeues_iff b w = elim (consume_outcome b w) [
    | inl (again, why) ↦ (
      (λ _. why, λ _. again),
      (λ h. absurd (ground arith), λ no. absurd (no why)),
      λ h. ground arith,
    )
    | inr (done, fine) ↦ (
      (λ h. absurd (ground arith), λ f. absurd (fine f)),
      (λ _. fine, λ _. done),
      λ h. ground arith,
    )
  ]
