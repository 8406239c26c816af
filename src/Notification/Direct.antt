-- ===== src/Notification/Direct.antt =====
-- services/managers/MultiChannelNotificationManager.ts. The sends that the source starts together
-- run here one after the other, in the order in which they are started; logging is left out.
use qa_api.Common.{
  ◌+++◌, ℕ, suc, String, Bool, true, false, not, ◌===◌, ◌&&◌, if◌then◌else◌, Option, none, some,
  List, [], ◌∷◌, ◌++◌, get_elem?, select,
}
use qa_api.Effect.{Outcome, ok, err, Action, pure, ◌>>=◌, ◌>>◌}
use qa_api.Notification.Payload.{
  text, undefined, Value, NotificationPayload, MultiChannelNotificationPayload, UserPayload, User,
  UserNotificationPreferences, PartialPreferences, plain_error, message_of, fail_if, or_fail,
  truthy,
}
use qa_api.Notification.Registry.{NotificationChannel, is_channel_supported, send_to_channel}

-- `IUserService`, as far as the managers of notifications call it. The fields of the update are
-- the ones that are given.
pub record UserService (World : Type 0) : Type 0 where
  pub find_by_id : String → Action World (Option User)
  pub update_preferences : String → PartialPreferences → Action World (Unit {0})

-- `email ?? true` and the like
abbrev pub or_default : Option Bool → Bool → Bool
or_default none d = d
or_default (some b) d = b

unfoldable pub stored_preferences : User → UserNotificationPreferences
stored_preferences u =
    let p = u.notification_preferences in
    record {
      email = or_default p.email true;
      push = or_default p.push true;
      sms = or_default p.sms false;
      webhook = or_default p.webhook false;
    }

abbrev pub if_so : Bool → String → List String
if_so true s = s ∷ []
if_so false s = []

-- `activeChannels`: the text of the queue's manager is the same, the preferences differ.
unfoldable pub active_channels : User → UserNotificationPreferences → List String
active_channels u p =
    if_so (p.email && not (u.email === "")) "email"
    ++ if_so p.push "push"
    ++ if_so (p.sms && truthy u.phone_number) "sms"
    ++ if_so (p.webhook && truthy u.webhook_url) "webhook"

abbrev language : Option String → Value
language none = undefined
language (some l) = text l

-- `user.email || userId`
abbrev pub address : User → String → String
address u user_id = if u.email === "" then user_id else u.email

unfoldable pub user_payload :
    User → String → List String → UserPayload → MultiChannelNotificationPayload
user_payload u user_id channels p = record {
  channels = channels;
  to = address u user_id;
  subject = p.subject;
  message = p.message;
  html = p.html;
  details = ("userLanguage", language u.language) ∷ p.details;
}

abbrev pub channel_payload : MultiChannelNotificationPayload → String → NotificationPayload
channel_payload p channel = record {
  channel = channel;
  to = p.to;
  user_id = none;
  from = none;
  subject = p.subject;
  message = p.message;
  html = p.html;
  details = p.details;
  tags = none;
}

abbrev pub no_user : String → String
no_user id = "User with ID " +++ id +++ " not found."

-- `errors.join('; ')`
abbrev pub joined : List String → String
joined [] = ""
joined (e ∷ []) = e
joined (e ∷ f ∷ es) = e +++ "; " +++ joined (f ∷ es)

abbrev pub is_empty : List String → Bool
is_empty [] = true
is_empty (_ ∷ _) = false

abbrev or_undefined : Option String → String
or_undefined none = "undefined"
or_undefined (some s) = s

-- `results.forEach((result, index) => …)` from an index on: the name is that of `channels[index]`.
abbrev pub errors_from : List String → ℕ → List (Outcome (Unit {0})) → List String
errors_from channels i [] = []
errors_from channels i (ok _ ∷ rest) = errors_from channels (suc i) rest
errors_from channels i (err e ∷ rest) =
    ("Channel " +++ or_undefined (get_elem? channels i) +++ ": " +++ message_of e)
    ∷ errors_from channels (suc i) rest

module _ {World : Type 0} (users : UserService World)
    (registry : List (NotificationChannel World)) where
  unfoldable pub notify : NotificationPayload → Action World (Unit {0})
  unfolding is_channel_supported send_to_channel
  notify p = do
    fail_if (not (is_channel_supported registry p.channel))
        ("Notification channel '" +++ p.channel +++ "' is not supported.")
    send_to_channel registry p.channel p

  -- The sends to channels, with what becomes of each (`Promise.allSettled`).
  unfoldable pub send_all :
      MultiChannelNotificationPayload → List String → World → List (Outcome (Unit {0})) × World
  unfolding send_to_channel
  send_all p [] w = ([], w)
  send_all p (c ∷ cs) w =
      let (r, w') = send_to_channel registry c (channel_payload p c) w in
      let (rs, w'') = send_all p cs w' in (r ∷ rs, w'')

  abbrev pub supported : List String → List String
  supported channels = select (is_channel_supported registry) channels

  abbrev pub report : List String → List (Outcome (Unit {0})) → Outcome (Unit {0})
  report channels [] = err (plain_error "No supported channels found for notification")
  report channels (r ∷ rs) = elim (errors_from channels 0 (r ∷ rs)) [
    | [] ↦ ok tt
    | e ∷ es ↦
        err (plain_error ("Failed to send notifications to some channels: " +++ joined (e ∷ es)))
  ]

  unfoldable pub notify_to_multiple_channels :
      MultiChannelNotificationPayload → Action World (Unit {0})
  unfolding send_all is_channel_supported
  notify_to_multiple_channels p w =
      let (rs, w') = send_all p (supported p.channels) w in (report p.channels rs, w')

  unfoldable pub get_user_notification_preferences :
      String → Action World UserNotificationPreferences
  unfolding stored_preferences
  get_user_notification_preferences user_id = do
    found ← users.find_by_id user_id
    u ← or_fail found (no_user user_id)
    pure (stored_preferences u)

  unfoldable pub update_user_notification_preferences :
      String → PartialPreferences → Action World (Unit {0})
  update_user_notification_preferences user_id p = do
    found ← users.find_by_id user_id
    or_fail found (no_user user_id)
    users.update_preferences user_id p

  unfoldable pub notify_user : String → UserPayload → Action World (Unit {0})
  unfolding active_channels user_payload get_user_notification_preferences
      notify_to_multiple_channels
  notify_user user_id payload = do
    found ← users.find_by_id user_id
    u ← or_fail found (no_user user_id)
    fail_if (u.email === "") ("User " +++ user_id +++ " does not have an email address")
    preferences ← get_user_notification_preferences user_id
    fail_if (is_empty (active_channels u preferences))
        ("No active notification channels found for user " +++ user_id)
    notify_to_multiple_channels (user_payload u user_id (active_channels u preferences) payload)
