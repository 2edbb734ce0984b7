-- ===== src/Http/Retrying/Tests.antt =====
-- A throttled call that succeeds at the third attempt.
use aws_access_bridge.Base.{◌≡◌, refl, none, [], ◌∷◌, false, arith, nat_eq, if◌then◌else◌}
use aws_access_bridge.Http.Errors.{is_retryable_http_status}
use aws_access_bridge.Http.Retrying.{
  answered, Client, fetch, fetch_from, next_delay_ms, parse_retry_after,
}
use aws_access_bridge.Http.Retrying.Bounds.{IsRun, fetch-IsRun}

abbrev throttled : Client
throttled = record {
  inner = λ n.
      if nat_eq n 2
      then answered (record { status = 200; retry_after = none })
      else answered (record { status = 429; retry_after = none });
  matches = λ p s. false;
  number = λ h. none;
  jitter = λ attempt limit. limit;
  max_attempts = 3;
  base_delay_ms = 100;
  max_delay_ms = 150;
}

three_calls : fetch throttled ≡ (
  answered (record { status = 200; retry_after = none }),
  record { calls = 3; waits = 100 ∷ 150 ∷ [] },
)
unfolding fetch fetch_from next_delay_ms parse_retry_after is_retryable_http_status
three_calls = refl

fetch-IsRun_example : IsRun throttled 0 3 (fetch throttled).0 (fetch throttled).1
fetch-IsRun_example = fetch-IsRun throttled (omega arith)
