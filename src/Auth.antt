-- ===== src/Auth.antt =====
-- How a request is authenticated: apps/api/src/middleware/MiddlewareHandlers.ts, the guard against
-- forged requests of RequestGuards.ts beside it, and
-- packages/backend-services/src/auth/AccessAuthService.ts. The check of a JSON web token is a parameter.
pub mod Laws
mod Tests
use Prim.Native.Char.{code}
use Prim.Native.String.{[], ◌∷◌}
use aws_access_bridge.Base.{
  ℕ, String, Option, none, some, List, [], ◌∷◌, Bool, true, false, not, ◌&&◌, ◌||◌, ◌==◌, any,
  is_set, present, text_or_empty, nat_eq, if◌then◌else◌,
}
use aws_access_bridge.Base.Errors.{
  ServiceError, Result, ok, err, unauthorized, forbidden, internal_server, plain_error,
}
use aws_access_bridge.Base.Exec.{Exec, lift, throw_if, ◌>>◌}
use aws_access_bridge.Arn.{strip_prefix}
use aws_access_bridge.Identity.Address.{lower, trim}
use aws_access_bridge.Internal
use aws_access_bridge.Internal.{Seen, Fault, validate_internal_request}
use aws_access_bridge.Token.{TokenEnvironment, TokenRow, authenticate_with_pat}

-- A request: the names of its headers are in lower case.
pub record HttpRequest : Type 0 where
  pub method : String
  pub hostname : String
  pub headers : List (String × String)
  -- Whether the signature in its headers is the one of its contents.
  pub is_signed : Bool

abbrev find_header : String → List (String × String) → Option String
find_header name [] = none
find_header name (h ∷ hs) = let rest = find_header name hs in if h.0 == name then some h.1 else rest

unfoldable pub header : String → HttpRequest → Option String
header name r = find_header name r.headers

abbrev is_there : Option String → Bool
is_there none = false
is_there (some s) = true

unfoldable pub has_internal_headers_for : HttpRequest → Bool
unfolding strip_prefix
has_internal_headers_for r = any (λ h. is_there (strip_prefix "x-internal-" h.0)) r.headers

unfoldable pub is_internal_request : HttpRequest → Bool
unfolding has_internal_headers_for
is_internal_request r = r.hostname == "self.invalid" || has_internal_headers_for r

abbrev pub demo_user_email : String
demo_user_email = "demo@example.com"

-- What the environment of a worker gives.
pub record AuthEnvironment : Type 0 where
  pub is_demo_mode : Bool
  pub is_production : Bool
  pub dev_auth_email : Option String
  pub team_domain : Option String
  pub policy_aud : Option String
  pub has_replay_namespace : Bool
  pub replay_ttl_seconds : ℕ
  pub request_time_window_ms : ℕ
  pub tokens : TokenEnvironment

abbrev pub internal_of : HttpRequest → Internal.Request
internal_of r = record {
  signature = header "x-internal-signature" r;
  timestamp = header "x-internal-timestamp" r;
  is_valid = r.is_signed;
}

-- `hmacValidation`
unfoldable pub hmac_validation : AuthEnvironment → Fault → ℕ → HttpRequest → Exec Seen (Unit {0})
hmac_validation env fault now_ms r seen =
    if is_internal_request r
    then validate_internal_request env.has_replay_namespace env.replay_ttl_seconds
        env.request_time_window_ms fault now_ms (internal_of r) seen
    else (ok tt, seen)

abbrev pub no_user_header : ServiceError
no_user_header = unauthorized "Internal call missing required user email header."

abbrev no_token : ServiceError
no_token = unauthorized "No personal access token provided in request headers."

abbrev pub email_or : ServiceError → Option String → Result String
email_or e none = err e
email_or e (some email) = if is_set email then ok email else err e

-- `Authorization: Bearer ...`
unfoldable pub bearer_token : HttpRequest → Option String
unfolding strip_prefix
bearer_token r = elim (header "authorization" r) [
  | none ↦ none
  | some value ↦ strip_prefix "Bearer " value
]

abbrev pub by_token : AuthEnvironment → Bool → ℕ → List TokenRow → Option String → Result String
by_token env stamps now rows none = err no_token
by_token env stamps now rows (some token) =
    (authenticate_with_pat env.tokens stamps now token rows).0

unfoldable pub authenticate_api_identity :
    AuthEnvironment → Bool → ℕ → List TokenRow → HttpRequest → Result String
authenticate_api_identity env stamps now rows r =
    if env.is_demo_mode
    then ok demo_user_email
    else if is_internal_request r
    then email_or no_user_header (header "x-internal-user-email" r)
    else by_token env stamps now rows (bearer_token r)

-- The chain of `/api/*` up to the identity, with what the rate limiter answers where there is one.
unfoldable pub api_identity :
    AuthEnvironment → Fault → ℕ → Bool → ℕ → Bool → List TokenRow → HttpRequest → Exec Seen String
api_identity env fault now_ms stamps now is_limited rows r =
    hmac_validation env fault now_ms r
    >> throw_if is_limited (plain_error "RateLimited")
    >> lift (authenticate_api_identity env stamps now rows r)

abbrev is_state_changing : String → Bool
is_state_changing method =
    method == "POST" || method == "PUT" || method == "PATCH" || method == "DELETE"

abbrev is_cross_site : Option String → Bool
is_cross_site none = false
is_cross_site (some site) =
    let normalized = lower (trim site) in
    not (normalized == "same-origin") && not (normalized == "none")

abbrev has_body : Option String → Bool
has_body none = true
has_body (some content_length) = not (trim content_length == "0")

abbrev is_json : Option String → Bool
is_json none = false
is_json (some content_type) = is_there (strip_prefix "application/json" (lower (trim content_type)))

abbrev cross_site_fetch : ServiceError
cross_site_fetch = forbidden "Cross-site request blocked"

abbrev unsupported_content_type : ServiceError
unsupported_content_type = forbidden "Request body must be application/json"

-- `csrfProtectionHandler`: the refusal, or the rest of the chain.
unfoldable csrf_protection : HttpRequest → Result (Unit {0})
csrf_protection r =
    if not (is_state_changing r.method)
    then ok tt
    else if is_cross_site (header "sec-fetch-site" r)
    then err cross_site_fetch
    else if has_body (header "content-length" r) && not (is_json (header "content-type" r))
    then err unsupported_content_type
    else ok tt

-- Without the slashes at the end.
unfoldable pub without_slashes : String → String
without_slashes [] = ""
without_slashes (c ∷ s) =
    let rest = without_slashes s in
    if nat_eq (code c) b'/' && not (is_set rest) then "" else c ∷ rest

abbrev pub has_comma : String → Bool
has_comma [] = false
has_comma (c ∷ s) = nat_eq (code c) b',' || has_comma s

-- The check of a token against an issuer and an audience: the address in its payload, if it has
-- one; an error that is not `unauthorized` is replaced.
abbrev pub JwtVerify : Type 0
JwtVerify = String → String → String → Result (Option String)

abbrev jwt_failed : ServiceError
jwt_failed = unauthorized "JWT verification failed."

abbrev pub payload_email : Result (Option String) → Result String
payload_email (ok email) = email_or (unauthorized "No email found in JWT token.") email
payload_email (err (unauthorized m)) = err (unauthorized m)
payload_email (err e) = err jwt_failed

abbrev no_configuration : ServiceError
no_configuration = unauthorized "Missing required JWT verification configuration."

unfoldable pub verify_access_jwt :
    JwtVerify → Option String → Option String → Option String → Result String
verify_access_jwt jwt_verify token team_domain policy_aud =
    let audience = trim (text_or_empty policy_aud) in
    if not (present token)
    then err (unauthorized "No Cloudflare Access JWT token provided in request headers.")
    else if not (present team_domain) || not (present policy_aud)
    then err no_configuration
    else if not (is_set audience)
    then err no_configuration
    else if has_comma audience
    then err (
        unauthorized
          "Multiple JWT audiences are not supported. Configure a single POLICY_AUD value.")
    else payload_email
        (jwt_verify (text_or_empty token) (without_slashes (text_or_empty team_domain)) audience)

abbrev pub email_or_jwt : Option String → Result String → Result String
email_or_jwt none jwt = jwt
email_or_jwt (some email) jwt = if is_set email then ok email else jwt

abbrev dev_in_production : ServiceError
dev_in_production =
    internal_server "DEV_AUTH_EMAIL is set in a production environment. Remove it and redeploy."

-- `platform` is the address of the identity that the platform has verified, if there is one.
unfoldable pub get_authenticated_user_email :
    AuthEnvironment → JwtVerify → Option String → HttpRequest → Result String
get_authenticated_user_email env jwt_verify platform r =
    let jwt =
      verify_access_jwt jwt_verify (header "cf-access-jwt-assertion" r) env.team_domain
        env.policy_aud in
    if env.is_demo_mode
    then ok demo_user_email
    else if present env.dev_auth_email
    then (if env.is_production
        then err dev_in_production
        else ok (text_or_empty env.dev_auth_email))
    else if present env.team_domain && present env.policy_aud
    then jwt
    else email_or_jwt platform jwt
