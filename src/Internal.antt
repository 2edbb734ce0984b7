-- ===== src/Internal.antt =====
-- Signed calls of the worker to itself: apps/api/src/middleware/HMACHandler.ts, and the guard against
-- replays of packages/backend-services/src/auth/ReplayGuard.ts. The check of the signature is a parameter.
pub mod Replay
mod Tests
use Prim.Native.Char.{code}
use Prim.Native.String.{[], ◌∷◌}
use aws_access_bridge.Base.{
  ℕ, zero, suc, ◌+◌, ◌-◌, ◌*◌, String, Option, none, some, Bool, true, false, not, ◌&&◌, ◌||◌, ◌==◌,
  ltb, leb, is_set, present, text_or_empty, if◌then◌else◌,
}
use aws_access_bridge.Base.Errors.{ServiceError, Result, ok, err, unauthorized}
use aws_access_bridge.Base.Exec.{Exec, throw_if, ◌>>◌}
use aws_access_bridge.Arn.{strip_digits}

-- The namespace of the seen signatures: when each record expires, in milliseconds.
abbrev pub Seen : Type 0
Seen = String → Option ℕ

-- What the namespace does at a claim: `get` shows the record that was last written and `put` writes; `get`
-- throws; `put` throws; or `get` does not show a record that there is, since the namespace is consistent
-- only after a time.
pub data Fault : Type 0 where
  no_fault on_get on_put stale_get : Fault

abbrev pub alive : ℕ → Option ℕ → Bool
alive now none = false
alive now (some expiry) = ltb now expiry

-- `claim`, at the time `now`: where `get` or `put` throws the claim is accepted. `bound` says that there is a namespace.
unfoldable pub claim : Bool → ℕ → Fault → ℕ → String → Seen → Bool × Seen
claim false ttl_seconds fault now signature seen = (true, seen)
claim true ttl_seconds on_get now signature seen = (true, seen)
claim true ttl_seconds stale_get now signature seen =
    (true, λ s. if signature == s then some (now + ttl_seconds * 1000) else seen s)
claim true ttl_seconds on_put now signature seen =
    if alive now (seen signature) then (false, seen) else (true, seen)
claim true ttl_seconds no_fault now signature seen =
    if alive now (seen signature)
    then (false, seen)
    else (true, λ s. if signature == s then some (now + ttl_seconds * 1000) else seen s)

-- `Number` of a text of digits.
abbrev pub number_from : ℕ → String → ℕ
number_from n [] = n
number_from n (c ∷ s) = number_from (n * 10 + (code c - b'0')) s

abbrev all_read : Option String → Bool
all_read none = false
all_read (some s) = not (is_set s)

abbrev pub distance : ℕ → ℕ → ℕ
distance a b = (a - b) + (b - a)

-- The headers of a request, and whether its signature is the one of its contents.
pub record Request : Type 0 where
  pub signature : Option String
  pub timestamp : Option String
  pub is_valid : Bool

abbrev pub missing_headers : ServiceError
missing_headers = unauthorized "Missing internal authentication headers"

abbrev pub outside_window : ServiceError
outside_window = unauthorized "Request timestamp outside valid time window"

abbrev signature_invalid : ServiceError
signature_invalid = unauthorized "Internal request signature invalid"

abbrev pub replayed : ServiceError
replayed = unauthorized "Internal request has already been used"

unfoldable pub in_window : ℕ → ℕ → String → Bool
in_window window_ms now timestamp =
    all_read (strip_digits 13 timestamp) && leb (distance now (number_from 0 timestamp)) window_ms

-- `validateInternalRequest` with a guard.
unfoldable pub validate_internal_request : Bool → ℕ → ℕ → Fault → ℕ → Request → Exec Seen Unit
validate_internal_request bound ttl_seconds window_ms fault now r =
    throw_if (not (present r.signature) || not (present r.timestamp)) missing_headers
    >> throw_if (not (in_window window_ms now (text_or_empty r.timestamp))) outside_window
    >> throw_if (not r.is_valid) signature_invalid
    >> λ seen.
        let (fresh, seen') = claim bound ttl_seconds fault now (text_or_empty r.signature) seen in
        throw_if (not fresh) replayed seen'
