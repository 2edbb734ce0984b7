-- ===== src/Http/Retrying.antt =====
-- packages/backend-services/src/http/RetryingAwsClient.ts
pub mod Bounds
mod Tests
use aws_access_bridge.Base.{
  ℕ, zero, suc, ◌+◌, ◌*◌, String, Option, none, some, List, [], ◌∷◌, ◌++◌, Bool, not, ◌||◌, leb,
  nat_eq, min, is_set, if◌then◌else◌,
}
use aws_access_bridge.Http.Errors.{
  Thrown, is_retryable_http_status, http_fetch_error, is_retryable_thrown_error,
}
use Prim.Native.Nat.{◌^◌}

-- A response, with its `Retry-After` header.
pub record HttpResponse : Type 0 where
  pub status : ℕ
  pub retry_after : Option String

-- What a call of the client underneath does.
pub data Outcome : Type 0 where
  answered : HttpResponse → Outcome
  rejected : Thrown → Outcome

-- The calls that were made and the waits between them, in milliseconds.
pub record Trace : Type 0 where
  pub calls : ℕ
  pub waits : List ℕ

-- The source's message goes on with the number of attempts and the URL.
abbrev retries_exhausted : String
retries_exhausted = "HTTP request failed (0): Gave up after"

-- `inner` is the client's answer to each call; `number` is `Number(header) * 1000` where that is
-- finite; `jitter` is the number drawn at an attempt below a maximum.
pub record Client : Type 0 where
  pub inner : ℕ → Outcome
  pub matches : String → String → Bool
  pub number : String → Option ℕ
  pub jitter : ℕ → ℕ → ℕ
  pub max_attempts : ℕ
  pub base_delay_ms : ℕ
  pub max_delay_ms : ℕ

abbrev is_zero : ℕ → Bool
is_zero zero = Bool.true
is_zero (suc n) = Bool.false

module _ (c : Client) where
  -- Milliseconds, if the header asks for some.
  unfoldable pub parse_retry_after : Option String → Option ℕ
  parse_retry_after none = none
  parse_retry_after (some header) =
      if is_set header
      then elim (c.number header) [ none ↦ none | some zero ↦ none | some (suc ms) ↦ some (suc ms) ]
      else none

  unfoldable pub next_delay_ms : ℕ → Option String → Option ℕ
  next_delay_ms attempt header = elim (parse_retry_after header) [
    | some requested ↦ if leb requested c.max_delay_ms then some requested else none
    | none ↦ some (min (c.jitter attempt (c.base_delay_ms * 2 ^ attempt)) c.max_delay_ms)
  ]

  abbrev pub or_zero : Option ℕ → ℕ
  or_zero none = 0
  or_zero (some n) = n

  abbrev pub called : Trace → Trace
  called t = record t { calls = t.calls + 1 }

  abbrev pub waited : ℕ → Trace → Trace
  waited ms t = record t { waits = t.waits ++ ms ∷ [] }

  -- The loop, by the attempts that are left after this one.
  unfoldable pub fetch_from : ℕ → ℕ → Trace → Outcome × Trace
  fetch_from zero attempt t = (rejected (http_fetch_error 0 retries_exhausted none), t)
  fetch_from (suc left) attempt t =
      let is_last = is_zero left in
      elim (c.inner attempt) [
        | rejected e ↦
            if is_last || not (is_retryable_thrown_error c.matches e)
            then (rejected e, called t)
            else fetch_from left (attempt + 1)
                (waited (or_zero (next_delay_ms attempt none)) (called t))
        | answered r ↦
            if is_last || not (is_retryable_http_status r.status)
            then (answered r, called t)
            else elim (next_delay_ms attempt r.retry_after) [
              | none ↦ (answered r, called t)
              | some ms ↦ fetch_from left (attempt + 1) (waited ms (called t))
            ]
      ]

  unfoldable pub fetch : Outcome × Trace
  fetch = fetch_from c.max_attempts 0 (record { calls = 0; waits = [] })
