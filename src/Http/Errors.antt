-- ===== src/Http/Errors.antt =====
-- packages/backend-services/src/http/HttpFetchError.ts: which failures are worth another attempt. The
-- engine of regular expressions is a parameter.
use aws_access_bridge.Base.{
  ℕ, String, Option, none, some, List, [], ◌∷◌, Bool, true, false, not, ◌&&◌, ◌||◌, leb, nat_eq,
  any, is_set, if◌then◌else◌,
}

unfoldable pub permanent_error_patterns : List String
permanent_error_patterns =
    "access\\s*denied" ∷ "unauthori[sz]ed" ∷ "forbidden" ∷ "expired" ∷ "invalid" ∷ "malformed"
    ∷ "unsupported" ∷ "validation" ∷ "not\\s*found" ∷ "signature" ∷ "security\\s*token" ∷ "disabled"
    ∷ "policy" ∷ "credential" ∷ "already\\s*exists" ∷ "conflict" ∷ "limit\\s*exceeded" ∷ []

unfoldable pub transient_error_patterns : List String
transient_error_patterns =
    "throttl" ∷ "rate\\s*exceeded" ∷ "too\\s*many\\s*requests" ∷ "service\\s*unavailable"
    ∷ "internal\\s*(server\\s*)?error" ∷ "timeout" ∷ "timed\\s*out" ∷ "temporar" ∷ "try\\s*again"
    ∷ "connection" ∷ "network" ∷ "reset" ∷ "busy" ∷ "socket" ∷ []

unfoldable pub is_retryable_http_status : ℕ → Bool
is_retryable_http_status status = nat_eq status 429 || (leb 500 status && leb status 599)

-- What is thrown: the verdict that it carries, if it carries one, and its message.
pub record Thrown : Type 0 where
  pub retryable : Option Bool
  pub message : String

-- The verdict of an `HttpFetchError`: the option's, or the status's.
unfoldable pub http_fetch_error : ℕ → String → Option Bool → Thrown
unfolding is_retryable_http_status
http_fetch_error status message none = record {
  retryable = some (is_retryable_http_status status);
  message = message;
}
http_fetch_error status message (some b) = record { retryable = some b; message = message }

-- `matches p s` is `new RegExp(p, 'i').test(s)`.
module _ (matches : String → String → Bool) where
  unfoldable pub is_retryable_thrown_error : Thrown → Bool
  is_retryable_thrown_error t = elim t.retryable [
    | some b ↦ b
    | none ↦
        if not (is_set t.message)
        then false
        else if any (λ p. matches p t.message) permanent_error_patterns
        then false
        else if any (λ p. matches p t.message) transient_error_patterns
        then true
        else true
  ]
