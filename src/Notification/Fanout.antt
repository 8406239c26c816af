-- ===== src/Notification/Fanout.antt =====
-- A notification to several channels at once, and to a user (MultiChannelNotificationManager.ts),
-- also against what the queue's manager and its consumer do with it.
use qa_api.Common.{
  ℕ, suc, String, Bool, true, false, ◌≡◌, refl, ◌===◌, ◌+++◌, ◌↔◌, some, List, [], ◌∷◌, arith, ◌∙◌,
  ap, sym, all, ◌&&◌,
}
use qa_api.Effect.{Outcome, ok, err}
use qa_api.Error.Handler.{Thrown}
use qa_api.Notification.Payload.{
  NotificationPayload, MultiChannelNotificationPayload, UserPayload, User, PartialPreferences,
  plain_error, message_of,
}
use qa_api.Notification.Registry.{NotificationChannel, is_channel_supported, send_to_channel}
use qa_api.Notification.Direct
use qa_api.Notification.Direct.{
  UserService, channel_payload, send_all, notify_to_multiple_channels, errors_from, joined,
  supported, report, active_channels, stored_preferences, user_payload,
}
use qa_api.Notification.Queue
use qa_api.Notification.Queue.{
  Senders, QueueProvider, send_one, process_multi_channel_notification, send_each,
}
use qa_api.Notification.Consumed.{visit, send_each-visit}

abbrev pub is_ok : Outcome (Unit {0}) → Bool
is_ok (ok _) = true
is_ok (err _) = false

abbrev pub is_empty {ℓ} : {A : Type ℓ} → List A → Bool
is_empty [] = true
is_empty (_ ∷ _) = false

errors_from-nil :
    (channels : List String) (i : ℕ) (rs : List (Outcome (Unit {0})))
    → (errors_from channels i rs ≡ []) ↔ (all is_ok rs ≡ true)
errors_from-nil channels i [] = ground arith
errors_from-nil channels i (ok _ ∷ rs) = errors_from-nil channels (suc i) rs
errors_from-nil channels i (err e ∷ rs) = ground arith

module _ {World : Type 0} (users : UserService World)
    (registry : List (NotificationChannel World)) where
  -- The sends one after the other, each from what the one before left behind: whether all succeed.
  abbrev pub all_succeed : MultiChannelNotificationPayload → List String → World → Bool
  all_succeed p [] w = true
  all_succeed p (c ∷ cs) w =
      is_ok (send_to_channel registry c (channel_payload p c) w).0
      && all_succeed p cs (send_to_channel registry c (channel_payload p c) w).1

  send_all-visit :
      (p : MultiChannelNotificationPayload) (cs : List String) (w : World)
      → (send_all users registry p cs w).1
        ≡ visit (λ c. send_to_channel registry c (channel_payload p c)) cs w
  unfolding send_all
  send_all-visit p [] w = refl
  send_all-visit p (c ∷ cs) w =
      send_all-visit p cs (send_to_channel registry c (channel_payload p c) w).1

  send_all-succeed :
      (p : MultiChannelNotificationPayload) (cs : List String) (w : World)
      → all is_ok (send_all users registry p cs w).0 ≡ all_succeed p cs w
  unfolding send_all
  send_all-succeed p [] w = refl
  send_all-succeed p (c ∷ cs) w =
      ap (λ b. is_ok (send_to_channel registry c (channel_payload p c) w).0 && b)
        (send_all-succeed p cs (send_to_channel registry c (channel_payload p c) w).1)

  send_all-empty :
      (p : MultiChannelNotificationPayload) (cs : List String) (w : World)
      → is_empty (send_all users registry p cs w).0 ≡ is_empty cs
  unfolding send_all
  send_all-empty p [] w = refl
  send_all-empty p (c ∷ cs) w = refl

  report-ok :
      (channels : List String) (rs : List (Outcome (Unit {0})))
      → (report users registry channels rs ≡ ok tt)
        ↔ ((is_empty rs ≡ false) × (all is_ok rs ≡ true))
  report-ok channels [] = ground arith
  report-ok channels (r ∷ rs) = ground (arith, errors_from-nil channels 0 (r ∷ rs))

  -- Sending to several channels makes one send to each supported channel, in their order and
  -- whichever fail, and returns exactly when there is one and every send succeeds.
  pub notify_to_multiple_channels_iff :
      (p : MultiChannelNotificationPayload) (w : World)
      → let cs = supported users registry p.channels in
        let (r, w') = notify_to_multiple_channels users registry p w in
        (w' ≡ visit (λ c. send_to_channel registry c (channel_payload p c)) cs w)
        × ((r ≡ ok tt) ↔ ((is_empty cs ≡ false) × (all_succeed p cs w ≡ true)))
  unfolding notify_to_multiple_channels
  notify_to_multiple_channels_iff p w =
      let cs = supported users registry p.channels in
      (
        send_all-visit p cs w,
        ground (
          arith,
          report-ok p.channels (send_all users registry p cs w).0,
          send_all-empty p cs w,
          send_all-succeed p cs w,
        ),
      )

  -- The error names a channel by its place among the failed sends' places, not by its own: of two
  -- channels of which the first is not supported, the failure of the second is reported under the
  -- name of the first.
  failure_is_misnamed :
      (p : MultiChannelNotificationPayload) (a b : String) (w : World) (e : Thrown)
      → p.channels ≡ a ∷ b ∷ []
      → is_channel_supported registry a ≡ false
      → is_channel_supported registry b ≡ true
      → (send_to_channel registry b (channel_payload p b) w).0 ≡ err e
      → (notify_to_multiple_channels users registry p w).0
        ≡ err (
            plain_error (
              "Failed to send notifications to some channels: "
              +++ "Channel "
              +++ a
              +++ ": "
              +++ message_of e))
  unfolding notify_to_multiple_channels send_all
  failure_is_misnamed p a b w e two missing there fails = ground arith

-- What is sent to a channel by its name in the registry is what the queue's consumer sends to the
-- channel of that name, and the registry has it.
abbrev pub Carries :
    {World : Type 0} → List (NotificationChannel World) → Senders World → List String → Type 0
Carries registry senders [] = Unit
Carries {World} registry senders (c ∷ cs) =
    ((is_channel_supported registry c ≡ true)
      × ((p : NotificationPayload) (w : World)
          → p.channel ≡ c
          → send_to_channel registry c p w ≡ send_one senders p w))
    × Carries registry senders cs

module _ {World : Type 0} (users : UserService World) (registry : List (NotificationChannel World))
    (senders : Senders World) where
  supported-all :
      (cs : List String) → Carries registry senders cs → supported users registry cs ≡ cs
  supported-all [] h = refl
  supported-all (c ∷ cs) h = ground (arith, supported-all cs h.1)

  visit-alike :
      (p : MultiChannelNotificationPayload) (cs : List String) (w : World)
      → Carries registry senders cs
      → visit (λ c. send_to_channel registry c (channel_payload p c)) cs w
        ≡ visit (λ c. send_one senders (channel_payload p c)) cs w
  visit-alike p [] w h = refl
  visit-alike p (c ∷ cs) w h =
      rw (h.0.1 (channel_payload p c) w refl)
        (visit-alike p cs (send_one senders (channel_payload p c) w).1 h.1)

  -- Where the registry has each of the channels that are asked for, and sends to it as the queue's
  -- consumer does, sending at once and consuming the queued message leave the same world behind,
  -- whichever sends fail; but the consumer returns always, and the direct call only when there is a
  -- channel and every send succeeds.
  pub direct_and_queue_send_alike :
      (p : MultiChannelNotificationPayload) (w : World)
      → Carries registry senders p.channels
      → let (r, w') = notify_to_multiple_channels users registry p w in
        let (r', w'') = process_multi_channel_notification senders p w in
        (w' ≡ w'')
        × (r' ≡ ok tt)
        × ((r ≡ ok tt)
            ↔ ((is_empty p.channels ≡ false) × (all_succeed users registry p p.channels w ≡ true)))
  unfolding process_multi_channel_notification
  direct_and_queue_send_alike p w h =
      let (world, fine) = notify_to_multiple_channels_iff users registry p w in
      let cs : supported users registry p.channels ≡ p.channels = supported-all p.channels h in
      let consumed = send_each-visit senders p p.channels w in
      let alike = visit-alike p p.channels w h in ground arith

module _ {World : Type 0} (users : UserService World) (provider : QueueProvider World) where
  queue-publishes :
      (id user_id : String) (u : User) (p : UserPayload)
      → ((w : World) → users.find_by_id user_id w ≡ (ok (some u), w))
      → (w : World)
      → Queue.notify_user users provider id user_id p w
        ≡ Queue.publish_to users provider id u user_id
            (active_channels u (Queue.default_preferences users provider))
            p
            w
  unfolding Queue.notify_user Queue.get_user_notification_preferences
  queue-publishes id user_id u p found w = ground (arith, found w)

module _ {World : Type 0} (users others : UserService World) (provider : QueueProvider World) where
  -- Two users who differ in nothing but their stored preferences are queued the same message, and
  -- what is returned and left behind is the same.
  queue_ignores_preferences :
      (id user_id : String) (u : User) (stored : PartialPreferences) (p : UserPayload)
      → ((w : World) → users.find_by_id user_id w ≡ (ok (some u), w))
      → ((w : World)
          → others.find_by_id user_id w
            ≡ (ok (some (record u { notification_preferences = stored })), w))
      → (w : World)
      → Queue.notify_user users provider id user_id p w
        ≡ Queue.notify_user others provider id user_id p w
  unfolding active_channels user_payload
  queue_ignores_preferences id user_id u stored p found found' w =
      queue-publishes users provider id user_id u p found w
      ∙ sym (
          queue-publishes others provider id user_id
            (record u { notification_preferences = stored }) p found' w)

module _ {World : Type 0} (users : UserService World)
    (registry : List (NotificationChannel World)) where
  -- For a user who has an address and has turned every kind of notification off, the direct manager
  -- throws and sends nothing.
  pub direct_obeys_preferences :
      (user_id : String) (u : User) (p : UserPayload) (w : World)
      → ((w : World) → users.find_by_id user_id w ≡ (ok (some u), w))
      → (u.email === "") ≡ false
      → u.notification_preferences
        ≡ record { email = some false; push = some false; sms = some false; webhook = some false }
      → Direct.notify_user users registry user_id p w
        ≡ (err (plain_error ("No active notification channels found for user " +++ user_id)), w)
  unfolding Direct.notify_user Direct.get_user_notification_preferences stored_preferences
      active_channels
  direct_obeys_preferences user_id u p w found address off = ground (arith, found w)
