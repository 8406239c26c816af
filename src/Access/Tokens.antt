-- ===== src/Access/Tokens.antt =====
-- What tokens open a route.
use Prim.Native.String.{String}
use qa_api.Common.{
  ℕ, ◌*◌, ◌/◌, ◌%◌, ◌≤◌, ◌<◌, true, false, ◌≡◌, ◌↔◌, sym, ◌∙◌, ◌===◌, ltb, lt→ltb, some, arith,
  Option-cases, Bool-cases, inl, inr, none, Option, ltb→lt, refl,
}
use qa_api.Effect.{Outcome, ok, err}
use qa_api.Access.Bearer.{is_token_included, get_access_token_from_header}
use qa_api.Access.Gate.{
  Request, DecodedToken, next, Services, refuse, is_known, is_expired, is_older, let_in,
  get_access_to_route, get_optional_access,
}

-- A request comes with a token that the configured secret verifies.
abbrev pub Carries : Services → Request → DecodedToken → Type 0
Carries s req d =
    (token : String) × (secret : String) × (is_token_included req.authorization ≡ true)
    × (get_access_token_from_header req.authorization ≡ some token)
    × ((token === "") ≡ false)
    × (s.jwt_secret_key ≡ some secret)
    × ((secret === "") ≡ false)
    × (s.verify token secret ≡ some d)

module _ (s : Services) (req : Request) where
  opens :
      (d : DecodedToken)
      → Carries s req d
      → is_known s d ≡ true
      → is_expired s d ≡ false
      → get_access_to_route s req ≡ let_in s d req
  unfolding get_access_to_route
  opens d (token, secret, a, b, c, e, f, g) known fresh = ground arith

  opened :
      (out : Request)
      → get_access_to_route s req ≡ next out
      → (d : DecodedToken) × Carries s req d
        × (is_known s d ≡ true)
        × (is_expired s d ≡ false)
        × (next out ≡ let_in s d req)
  unfolding get_access_to_route
  opened out h =
      let a : is_token_included req.authorization ≡ true = ground arith in
      elim (Option-cases (get_access_token_from_header req.authorization)) [
        | inl e ↦ absurd (ground arith)
        | inr (token, b) ↦
            let c : (token === "") ≡ false = ground arith in
            elim (Option-cases s.jwt_secret_key) [
              | inl e ↦ absurd (ground arith)
              | inr (secret, e) ↦
                  let f : (secret === "") ≡ false = ground arith in
                  elim (Option-cases (s.verify token secret)) [
                    | inl g ↦ absurd (ground arith)
                    | inr (d, g) ↦
                        let k : is_known s d ≡ true = ground arith in
                        let x : is_expired s d ≡ false = ground arith in
                        (d, (token, secret, a, b, c, e, f, g), k, x, ground arith)
                  ]
            ]
      ]

  -- What the check of the password change finds: the token has a time of issue that is not 0, its
  -- user is found with a time of the last change, and that time is later.
  abbrev pub IsStale : DecodedToken → Type 0
  IsStale d =
      (iat : ℕ) × (change : ℕ) × (d.iat ≡ some iat)
      × (0 < iat)
      × (s.find_user d.id ≡ ok (some (some change)))
      × (iat * 1000 < change)

  fresh-IsStale : (d : DecodedToken) → is_expired s d ≡ false → IsStale d → ⊥
  fresh-IsStale d fresh (iat, change, a, b, c, later) =
      let old : ltb (iat * 1000) change ≡ true = lt→ltb _ _ later in ground arith

  IsStale-found :
      (d : DecodedToken) (iat : ℕ) (found : Outcome (Option (Option ℕ)))
      → d.iat ≡ some iat
      → 0 < iat
      → s.find_user d.id ≡ found
      → is_older s iat found ≡ true
      → IsStale d
  IsStale-found d iat (ok (some (some change))) a b c older =
      (iat, change, a, b, c, ltb→lt _ _ older)
  IsStale-found d iat (ok (some none)) a b c older = absurd (ground arith)
  IsStale-found d iat (ok none) a b c older = absurd (ground arith)
  IsStale-found d iat (err e) a b c older = absurd (ground arith)

  expired-IsStale : (d : DecodedToken) → is_expired s d ≡ true → IsStale d
  expired-IsStale d old = elim (Option-cases d.iat) [
    | inl none_given ↦ absurd (ground arith)
    | inr (iat, a) ↦ IsStale-found d iat (s.find_user d.id) a (ground arith) refl (ground arith)
  ]

  not_stale : (d : DecodedToken) → (IsStale d → ⊥) → is_expired s d ≡ false
  not_stale d fine = elim (Bool-cases (is_expired s d)) [
    | inl old ↦ absurd (fine (expired-IsStale d old))
    | inr fresh ↦ fresh
  ]

  -- A route is opened exactly for a request with a bearer token that the configured secret
  -- verifies, whose id is one of the configured database, and that is not found to be older than
  -- the last password change; the request then carries that user and language. It is found older
  -- only when it has a time of issue other than 0 and its user is found with a later change: when
  -- the lookup of the user fails, the token is let in whatever its age.
  pub access_iff :
      (out : Request)
      → (get_access_to_route s req ≡ next out) ↔ (
          (d : DecodedToken) × Carries s req d
          × (is_known s d ≡ true)
          × (IsStale d → ⊥)
          × (next out ≡ let_in s d req))
  access_iff out = (
    λ h.
        let (d, carries, known, fresh, e) = opened out h in
        (d, carries, known, fresh-IsStale d fresh, e),
    λ w. let (d, carries, known, fine, e) = w in opens d carries known (not_stale d fine) ∙ sym e,
  )

  earlier :
      (change issued : ℕ)
      → issued / 1000 ≡ change / 1000
      → 0 < change % 1000
      → ltb (issued / 1000 * 1000) change ≡ true
  earlier change issued same part = lt→ltb _ _ (grind arith)

  is_expired_of :
      (d : DecodedToken) (change issued : ℕ)
      → s.find_user d.id ≡ ok (some (some change))
      → change ≤ issued
      → issued / 1000 ≡ change / 1000
      → 0 < change % 1000
      → 0 < issued / 1000
      → d.iat ≡ some (issued / 1000)
      → is_expired s d ≡ true
  is_expired_of d change issued h le same part pos i =
      ground (arith, earlier change issued same part)

  -- Since `iat` counts whole seconds, a token that is issued after a password change is refused
  -- when the change lies in the same second and not on its first millisecond.
  same_second_refused :
      (d : DecodedToken) (change issued : ℕ)
      → Carries s req d
      → is_known s d ≡ true
      → s.find_user d.id ≡ ok (some (some change))
      → change ≤ issued
      → issued / 1000 ≡ change / 1000
      → 0 < change % 1000
      → 0 < issued / 1000
      → d.iat ≡ some (issued / 1000)
      → get_access_to_route s req ≡ refuse "Token expired due to password change" 401
  unfolding get_access_to_route
  same_second_refused d change issued (token, secret, a, b, c, e, f, g) known h le same part pos i =
      let old : is_expired s d ≡ true = is_expired_of d change issued h le same part pos i in
      ground arith

  -- A token that the route check refuses because the password has changed still sets the user of a
  -- request under the optional check.
  expired_opens_optional :
      (d : DecodedToken)
      → Carries s req d
      → is_known s d ≡ true
      → is_expired s d ≡ true
      → (get_access_to_route s req ≡ refuse "Token expired due to password change" 401)
        × (get_optional_access s req
            ≡ next
                (record req { user = some (record { id = d.id; name = d.name; role = d.role }) }))
  unfolding get_access_to_route get_optional_access
  expired_opens_optional d (token, secret, a, b, c, e, f, g) known old =
      (ground arith, ground arith)
