-- ===== src/Auth/Tests.antt =====
-- Requests with a token, with a forged internal header, and with a web token.
use aws_access_bridge.Base.{
  ◌+◌, String, ◌≡◌, ◌⊎◌, refl, Option, none, some, List, [], ◌∷◌, true, false,
}
use aws_access_bridge.Base.Errors.{ok, err}
use aws_access_bridge.Arn.{strip_prefix}
use aws_access_bridge.Internal.{Seen, no_fault, validate_internal_request, missing_headers}
use aws_access_bridge.Identity.Address.{trim, trim_start, trim_end}
use aws_access_bridge.Token.{
  TokenRow, authenticate_with_pat, get_by_token_hash, is_active_hash, current_address,
}
use aws_access_bridge.Auth.{
  HttpRequest, AuthEnvironment, JwtVerify, header, has_internal_headers_for, is_internal_request,
  hmac_validation, bearer_token, authenticate_api_identity, api_identity,
  get_authenticated_user_email, verify_access_jwt, without_slashes,
}
use aws_access_bridge.Auth.Laws.{
  IsGranted, api_identity-IsGranted, IsVerified, get_authenticated_user_email-production,
}

abbrev environment : AuthEnvironment
environment = record {
  is_demo_mode = false;
  is_production = true;
  dev_auth_email = none;
  team_domain = some "https://team/";
  policy_aud = some " aud ";
  has_replay_namespace = true;
  replay_ttl_seconds = 300;
  request_time_window_ms = 30000;
  tokens = record {
    sha256_hex = λ token. token;
    add_days = λ now days. now + days;
    resolve_account_by_id = λ id. ok none;
    max_tokens = 2;
    max_expiry_days = 90;
  };
}

abbrev tokens : List TokenRow
tokens =
    record {
      token_id = "t1";
      user_email = "ann@a.io";
      user_id = none;
      token_hash = "secret";
      name = "ci";
      created_at = 1;
      expires_at = 9;
      last_used_at = none;
    }
    ∷ []

abbrev nothing_seen : Seen
nothing_seen s = none

abbrev get_with : String → String → HttpRequest
get_with name value = record {
  method = "GET";
  hostname = "app";
  headers = (name, value) ∷ [];
  is_signed = false;
}

api_identity-IsGranted_example :
    IsGranted environment no_fault 0 true 5 tokens
      (get_with "authorization" "Bearer secret")
      nothing_seen
      "ann@a.io"
unfolding api_identity hmac_validation is_internal_request has_internal_headers_for strip_prefix
    header bearer_token authenticate_api_identity authenticate_with_pat get_by_token_hash
    is_active_hash current_address
api_identity-IsGranted_example =
    api_identity-IsGranted environment no_fault 0 true 5 tokens
      (get_with "authorization" "Bearer secret") false nothing_seen "ann@a.io" refl

forged_header :
    (api_identity environment no_fault 0 true 5 false tokens
      (get_with "x-internal-user-email" "ann@a.io")
      nothing_seen).0
    ≡ err missing_headers
unfolding api_identity hmac_validation is_internal_request has_internal_headers_for strip_prefix
    header validate_internal_request
forged_header = refl

abbrev no_platform : Option String
no_platform = none

abbrev jwt_of_ann : JwtVerify
jwt_of_ann token issuer audience = ok (some "ann@a.io")

get_authenticated_user_email-production_example :
    (false ≡ false)
    × (IsVerified jwt_of_ann (some "jwt") (some "https://team/") (some " aud ") "ann@a.io"
        ⊎ (no_platform ≡ some "ann@a.io"))
unfolding get_authenticated_user_email verify_access_jwt header without_slashes trim trim_start
    trim_end
get_authenticated_user_email-production_example =
    get_authenticated_user_email-production jwt_of_ann environment none
      (get_with "cf-access-jwt-assertion" "jwt") "ann@a.io" refl refl refl
