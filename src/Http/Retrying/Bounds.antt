-- ===== src/Http/Retrying/Bounds.antt =====
-- How many calls are made and how long is waited between them.
use Prim.Native.Nat.{◌^◌}
use aws_access_bridge.Base.{
  ℕ, zero, suc, ◌+◌, ◌≤◌, ◌≡◌, refl, Option, none, some, [], ◌∷◌, All, Bool-cases, inl, inr, leb,
  leb→le, min, ◌<◌, ◌*◌, String, All-snoc, Option-cases, ◌∙◌, ◌⊎◌, sym, length, length-append,
  arith,
}
use aws_access_bridge.Http.Errors.{Thrown, is_retryable_http_status, is_retryable_thrown_error}
use aws_access_bridge.Http.Retrying.{
  HttpResponse, Outcome, answered, rejected, Trace, Client, parse_retry_after, next_delay_ms,
  or_zero, called, waited, fetch_from, fetch,
}

module _ (c : Client) where
  abbrev Affordable : ℕ → Type 0
  Affordable ms = ms ≤ c.max_delay_ms

  next_delay_ms-Affordable :
      (attempt ms : ℕ) (header : Option String)
      → next_delay_ms c attempt header ≡ some ms
      → Affordable ms
  unfolding next_delay_ms
  next_delay_ms-Affordable attempt ms header e = elim (Option-cases (parse_retry_after c header)) [
    | inl p ↦
        let q : min (c.jitter attempt (c.base_delay_ms * 2 ^ attempt)) c.max_delay_ms ≡ ms =
          cc (rw (next_delay_ms, p) at e) in
        omega arith
    | inr (requested, p) ↦ elim (Bool-cases (leb requested c.max_delay_ms)) [
      | inl l ↦
          let q : requested ≡ ms = cc (rw (next_delay_ms, p, l) at e) in
          let r = leb→le requested c.max_delay_ms l in omega arith
      | inr l ↦ cc (rw (next_delay_ms, p, l) at e)
    ]
  ]

  first_delay-Affordable : (attempt : ℕ) → Affordable (or_zero c (next_delay_ms c attempt none))
  unfolding next_delay_ms parse_retry_after
  first_delay-Affordable attempt = omega arith

  -- Before the attempt numbered `n`: `n` calls, and a wait after each.
  abbrev IsPaced : ℕ → Trace → Type 0
  IsPaced n t = (t.calls ≡ n) × (length t.waits ≡ n) × All Affordable t.waits

  IsPaced-waited :
      (n ms : ℕ) (t : Trace)
      → Affordable ms
      → IsPaced n t
      → IsPaced (n + 1) (waited c ms (called c t))
  IsPaced-waited n ms t h (k, l, a) = (
    omega arith,
    length-append t.waits (ms ∷ []) ∙ omega arith,
    All-snoc Affordable t.waits ms a h,
  )

  -- The end of the loop at the attempt numbered `n`.
  pub record IsRun (attempt left : ℕ) (r : Outcome) (t : Trace) : Type 0 where
    pub n : ℕ
    pub at_least : attempt ≤ n
    pub in_budget : n < attempt + left
    pub outcome : r ≡ c.inner n
    pub calls : t.calls ≡ suc n
    pub waits : length t.waits ≡ n
    pub affordable : All Affordable t.waits

  ended :
      (attempt left : ℕ) (r : Outcome) (t : Trace)
      → r ≡ c.inner attempt
      → IsPaced attempt t
      → IsRun attempt (suc left) r (called c t)
  ended attempt left r t e (k, l, a) = record {
    n = attempt;
    at_least = omega arith;
    in_budget = omega arith;
    outcome = e;
    calls = omega arith;
    waits = l;
    affordable = a;
  }

  later :
      (attempt left : ℕ) (r : Outcome) (t : Trace)
      → IsRun (attempt + 1) left r t
      → IsRun attempt (suc left) r t
  later attempt left r t v = record {
    n = v.n;
    at_least = let h = v.at_least in omega arith;
    in_budget = let h = v.in_budget in omega arith;
    outcome = v.outcome;
    calls = v.calls;
    waits = v.waits;
    affordable = v.affordable;
  }

  Outcome-cases :
      (o : Outcome) → ((e : Thrown) × (o ≡ rejected e)) ⊎ ((r : HttpResponse) × (o ≡ answered r))
  Outcome-cases (rejected e) = inl (e, refl)
  Outcome-cases (answered r) = inr (r, refl)

  fetch_from-IsRun :
      (left attempt : ℕ) (t : Trace)
      → IsPaced attempt t
      → IsRun attempt
          (suc left)
          (fetch_from c (suc left) attempt t).0
          (fetch_from c (suc left) attempt t).1
  unfolding fetch_from
  fetch_from-IsRun zero attempt t h = elim (Outcome-cases (c.inner attempt)) [
    | inl (e, o) ↦ rw (fetch_from, o) (ended attempt 0 (rejected e) t (sym o) h)
    | inr (r, o) ↦ rw (fetch_from, o) (ended attempt 0 (answered r) t (sym o) h)
  ]
  fetch_from-IsRun (suc left) attempt t h = elim (Outcome-cases (c.inner attempt)) [
    | inl (e, o) ↦ elim (Bool-cases (is_retryable_thrown_error c.matches e)) [
      | inr b ↦ rw (fetch_from, o, b) (ended attempt (suc left) (rejected e) t (sym o) h)
      | inl b ↦
          let ms = or_zero c (next_delay_ms c attempt none) in
          rw (fetch_from, o, b)
            (later attempt (suc left) _ _ (
              fetch_from-IsRun left (attempt + 1) (waited c ms (called c t))
                (IsPaced-waited attempt ms t (first_delay-Affordable attempt) h)))
    ]
    | inr (r, o) ↦ elim (Bool-cases (is_retryable_http_status r.status)) [
      | inr b ↦ rw (fetch_from, o, b) (ended attempt (suc left) (answered r) t (sym o) h)
      | inl b ↦ elim (Option-cases (next_delay_ms c attempt r.retry_after)) [
        | inl d ↦ rw (fetch_from, o, b, d) (ended attempt (suc left) (answered r) t (sym o) h)
        | inr (ms, d) ↦
            rw (fetch_from, o, b, d)
              (later attempt (suc left) _ _ (
                fetch_from-IsRun left (attempt + 1) (waited c ms (called c t)) (
                  IsPaced-waited attempt ms t (next_delay_ms-Affordable attempt ms r.retry_after d)
                    h)))
      ]
    ]
  ]

  abbrev start : Trace
  start = record { calls = 0; waits = [] }

  fetch_from-positive :
      (n : ℕ) → 1 ≤ n → IsRun 0 n (fetch_from c n 0 start).0 (fetch_from c n 0 start).1
  fetch_from-positive zero h = absurd (omega arith)
  fetch_from-positive (suc left) h = fetch_from-IsRun left 0 start (refl, refl, tt)

  -- With at least one attempt allowed, a call ends within the allowed number, with what the client
  -- underneath did at the last of them, never with the exhaustion error; between two attempts it
  -- waits once, and never longer than the ceiling.
  pub fetch-IsRun : 1 ≤ c.max_attempts → IsRun 0 c.max_attempts (fetch c).0 (fetch c).1
  unfolding fetch
  fetch-IsRun h = fetch_from-positive c.max_attempts h
