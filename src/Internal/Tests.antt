-- ===== src/Internal/Tests.antt =====
-- A signed request, presented twice.
use aws_access_bridge.Base.{◌≡◌, ◌≤◌, ◌⊎◌, refl, none, some, true, arith}
use aws_access_bridge.Base.Errors.{ServiceError, ok, err}
use aws_access_bridge.Arn.{strip_digits}
use aws_access_bridge.Internal.{
  Seen, no_fault, on_get, stale_get, distance, Request, claim, in_window, validate_internal_request,
}
use aws_access_bridge.Internal.Replay.{once, validate_internal_request-replayed}

abbrev signed : Request
signed = record { signature = some "sig"; timestamp = some "1700000000000"; is_valid = true }

abbrev nothing_seen : Seen
nothing_seen s = none

first_accepted : (once 300 30000 signed no_fault 1700000010000 1700000020000 nothing_seen).0 ≡ ok tt
unfolding validate_internal_request in_window claim strip_digits
first_accepted = refl

-- Within the window a lookup that does not show the record lets the request pass again.
stale_passes :
    (validate_internal_request true 300 30000 stale_get 1700000020000 signed
      (once 300 30000 signed no_fault 1700000010000 1700000020000 nothing_seen).1).0
    ≡ ok tt
unfolding validate_internal_request in_window claim strip_digits
stale_passes = refl

validate_internal_request-replayed_example :
    let seen' =
      (validate_internal_request true 300 30000 no_fault 1700000010000 signed nothing_seen).1 in
    ((e : ServiceError) × (validate_internal_request true 300 30000 no_fault 1700000020000 signed
          seen'
        ≡ (err e, seen')))
    ⊎ ((distance 1700000020000 1700000000000 ≤ 30000)
        × ((no_fault ≡ on_get) ⊎ (no_fault ≡ stale_get)))
validate_internal_request-replayed_example =
    validate_internal_request-replayed 300 30000 signed no_fault 1700000010000 1700000020000
      nothing_seen (omega arith) (omega arith) tt first_accepted no_fault
