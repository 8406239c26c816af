-- ===== src/Notification/Registry.antt =====
-- services/managers/NotificationChannelRegistry.ts: its Map is a list of pairs. `World` is what
-- the channels act on; the channels themselves are parameters.
use qa_api.Common.{
  ◌+++◌, String, Bool, ◌===◌, if◌then◌else◌, Option, none, some, List, [], ◌∷◌, map, any, find,
  select, not,
}
use qa_api.Effect.{err, Action}
use qa_api.Notification.Payload.{NotificationPayload, plain_error}

-- `NotificationChannel` of services/contracts/NotificationChannel.ts
pub record NotificationChannel (World : Type 0) : Type 0 where
  pub type : String
  pub send : NotificationPayload → Action World (Unit {0})

module _ {World : Type 0} where
  -- The map is kept as the list of its channels, in the order in which their types were first
  -- registered.
  abbrev pub has_type : String → NotificationChannel World → Bool
  has_type t c = c.type === t

  -- `map.set`: in its old place, or at the end.
  unfoldable pub register_channel :
      NotificationChannel World
      → List (NotificationChannel World)
      → List (NotificationChannel World)
  register_channel c [] = c ∷ []
  register_channel c (d ∷ ds) =
      let rest = register_channel c ds in if d.type === c.type then c ∷ ds else d ∷ rest

  unfoldable pub unregister_channel :
      String → List (NotificationChannel World) → List (NotificationChannel World)
  unregister_channel t cs = select (λ c. not (has_type t c)) cs

  unfoldable pub get_channel :
      List (NotificationChannel World) → String → Option (NotificationChannel World)
  get_channel cs t = find (has_type t) cs

  unfoldable pub is_channel_supported : List (NotificationChannel World) → String → Bool
  is_channel_supported cs t = any (has_type t) cs

  unfoldable pub get_supported_channel_types : List (NotificationChannel World) → List String
  get_supported_channel_types cs = map (λ c. c.type) cs

  unfoldable pub send_to_channel :
      List (NotificationChannel World) → String → NotificationPayload → Action World (Unit {0})
  unfolding get_channel
  send_to_channel cs t payload w = elim (get_channel cs t) [
    | none ↦ (err (plain_error ("Notification channel '" +++ t +++ "' is not registered.")), w)
    | some c ↦ c.send payload w
  ]
