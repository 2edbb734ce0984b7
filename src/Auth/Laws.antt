-- ===== src/Auth/Laws.antt =====
-- Who a request can be authenticated as.
use aws_access_bridge.Base.{
  ℕ, String, ◌≡◌, ◌⊎◌, refl, ap, Option, none, some, List, Bool, true, false, not, ◌&&◌, ◌||◌, inl,
  inr, Bool-cases, present, text_or_empty, is_set,
}
use aws_access_bridge.Base.Errors.{ServiceError, Result, ok, err, Result-cases, unauthorized}
use aws_access_bridge.Internal.{Seen, Fault, validate_internal_request}
use aws_access_bridge.Token.{TokenRow, authenticate_with_pat}
use aws_access_bridge.Identity.Address.{trim}
use aws_access_bridge.Auth.{
  HttpRequest, AuthEnvironment, JwtVerify, header, is_internal_request, internal_of,
  hmac_validation, bearer_token, by_token, email_or, no_user_header, authenticate_api_identity,
  api_identity, demo_user_email, get_authenticated_user_email, verify_access_jwt, without_slashes,
  payload_email, has_comma, email_or_jwt,
}

email_or-eq-ok :
    (e : ServiceError) (o : Option String) (email : String)
    → email_or e o ≡ ok email
    → o ≡ some email
email_or-eq-ok e none email h = cc
email_or-eq-ok e (some x) email h = elim (Bool-cases (is_set x)) [
  | inl s ↦ cc (rw s at h)
  | inr s ↦ cc (rw s at h)
]

module _ (env : AuthEnvironment) (fault : Fault) (now_ms : ℕ) (stamps : Bool) (now : ℕ)
    (rows : List TokenRow) (r : HttpRequest) where
  by_token-eq-ok :
      (o : Option String) (email : String)
      → by_token env stamps now rows o ≡ ok email
      → (token : String) × (o ≡ some token)
        × ((authenticate_with_pat env.tokens stamps now token rows).0 ≡ ok email)
  by_token-eq-ok none email h = cc
  by_token-eq-ok (some token) email h = (token, refl, h)

  -- What the signed request must be.
  abbrev pub signed : Seen → Result (Unit {0})
  signed seen =
      (validate_internal_request env.has_replay_namespace env.replay_ttl_seconds
        env.request_time_window_ms fault now_ms (internal_of r) seen).0

  abbrev pub IsGranted : Seen → String → Type 0
  IsGranted seen email =
      ((env.is_demo_mode ≡ true) × (email ≡ demo_user_email))
      ⊎ ((is_internal_request r ≡ true)
          × (signed seen ≡ ok tt)
          × (header "x-internal-user-email" r ≡ some email))
      ⊎ ((is_internal_request r ≡ false)
          × ((token : String) × (bearer_token r ≡ some token)
              × ((authenticate_with_pat env.tokens stamps now token rows).0 ≡ ok email)))

  hmac_validation-signed :
      (seen : Seen)
      → is_internal_request r ≡ true
      → (hmac_validation env fault now_ms r seen).0 ≡ ok tt
      → signed seen ≡ ok tt
  unfolding hmac_validation
  hmac_validation-signed seen i h = rw i at h

  identity-IsGranted :
      (seen : Seen) (email : String)
      → (hmac_validation env fault now_ms r seen).0 ≡ ok tt
      → authenticate_api_identity env stamps now rows r ≡ ok email
      → IsGranted seen email
  unfolding authenticate_api_identity
  identity-IsGranted seen email v h = elim (Bool-cases env.is_demo_mode) [
    | inl d ↦ inl (d, cc (rw d at h))
    | inr d ↦ elim (Bool-cases (is_internal_request r)) [
      | inl i ↦ inr (
          inl (
            i,
            hmac_validation-signed seen i v,
            email_or-eq-ok no_user_header _ email (rw (d, i) at h),
          ))
      | inr i ↦ inr (inr (i, by_token-eq-ok (bearer_token r) email (rw (d, i) at h)))
    ]
  ]

  -- A request on `/api/*` is authenticated as an address only in demo mode, as the demo user; or as
  -- the address in its internal header, if it is an internal request whose signature, time and
  -- first use have been accepted; or, if it is not an internal request, as the address that its
  -- bearer token authenticates.
  pub api_identity-IsGranted :
      (is_limited : Bool) (seen : Seen) (email : String)
      → (api_identity env fault now_ms stamps now is_limited rows r seen).0 ≡ ok email
      → IsGranted seen email
  unfolding api_identity
  api_identity-IsGranted is_limited seen email h =
      elim (Result-cases (hmac_validation env fault now_ms r seen).0) [
        | inr (e, v) ↦ cc (rw v at h)
        | inl (done, v) ↦ elim (Bool-cases is_limited) [
          | inl l ↦ cc (rw (v, l) at h)
          | inr l ↦ identity-IsGranted seen email v (rw (v, l) at h)
        ]
      ]

module _ (jwt_verify : JwtVerify) where
  payload_email-eq-ok :
      (p : Result (Option String)) (email : String)
      → payload_email p ≡ ok email
      → p ≡ ok (some email)
  payload_email-eq-ok (ok o) email h = ap ok (email_or-eq-ok _ o email h)
  payload_email-eq-ok (err (unauthorized m)) email h = cc
  payload_email-eq-ok (err e) email h = cc

  -- What a verified token must be.
  abbrev pub IsVerified : Option String → Option String → Option String → String → Type 0
  IsVerified token team_domain policy_aud email =
      (present token ≡ true)
      × (jwt_verify (text_or_empty token) (without_slashes (text_or_empty team_domain))
            (trim (text_or_empty policy_aud))
          ≡ ok (some email))

  verify_access_jwt-IsVerified :
      (token team_domain policy_aud : Option String) (email : String)
      → verify_access_jwt jwt_verify token team_domain policy_aud ≡ ok email
      → IsVerified token team_domain policy_aud email
  unfolding verify_access_jwt
  verify_access_jwt-IsVerified token team_domain policy_aud email h =
      elim (Bool-cases (present token)) [
        | inr a ↦ cc (rw a at h)
        | inl a ↦ elim (Bool-cases (not (present team_domain) || not (present policy_aud))) [
          | inl b ↦ cc (rw (a, b) at h)
          | inr b ↦ elim (Bool-cases (is_set (trim (text_or_empty policy_aud)))) [
            | inr c ↦ cc (rw (a, b, c) at h)
            | inl c ↦ elim (Bool-cases (has_comma (trim (text_or_empty policy_aud)))) [
              | inl d ↦ cc (rw (a, b, c, d) at h)
              | inr d ↦ (a, payload_email-eq-ok _ email (rw (a, b, c, d) at h))
            ]
          ]
        ]
      ]

  email_or_jwt-IsVerified :
      (platform token team_domain policy_aud : Option String) (email : String)
      → email_or_jwt platform (verify_access_jwt jwt_verify token team_domain policy_aud) ≡ ok email
      → IsVerified token team_domain policy_aud email ⊎ (platform ≡ some email)
  email_or_jwt-IsVerified none token team_domain policy_aud email h =
      inl (verify_access_jwt-IsVerified token team_domain policy_aud email h)
  email_or_jwt-IsVerified (some x) token team_domain policy_aud email h =
      elim (Bool-cases (is_set x)) [
        | inl s ↦ inr (cc (rw s at h))
        | inr s ↦ inl (verify_access_jwt-IsVerified token team_domain policy_aud email (rw s at h))
      ]

  -- In production, outside demo mode, a signed-in user is the one whose address is in a token that
  -- was verified against the configured issuer and audience, or the one whom the platform has
  -- verified; never the address of the bypass for development, with which every request is refused.
  pub get_authenticated_user_email-production :
      (env : AuthEnvironment) (platform : Option String) (r : HttpRequest) (email : String)
      → env.is_production ≡ true
      → env.is_demo_mode ≡ false
      → get_authenticated_user_email env jwt_verify platform r ≡ ok email
      → (present env.dev_auth_email ≡ false)
        × (IsVerified (header "cf-access-jwt-assertion" r) env.team_domain env.policy_aud email
            ⊎ (platform ≡ some email))
  unfolding get_authenticated_user_email
  get_authenticated_user_email-production env platform r email production demo h =
      elim (Bool-cases (present env.dev_auth_email)) [
        | inl a ↦ cc (rw (demo, a, production) at h)
        | inr a ↦ elim (Bool-cases (present env.team_domain && present env.policy_aud)) [
          | inl b ↦ (
            a,
            inl (
                verify_access_jwt-IsVerified (header "cf-access-jwt-assertion" r) env.team_domain
                  env.policy_aud email (rw (demo, a, b) at h)),
          )
          | inr b ↦ (a, email_or_jwt-IsVerified platform _ _ _ email (rw (demo, a, b) at h))
        ]
      ]
