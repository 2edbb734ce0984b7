-- ===== src/Internal/Replay.antt =====
-- A signed request is accepted once, as far as the store shows what was written.
use aws_access_bridge.Base.{
  ℕ, ◌+◌, ◌*◌, ◌<◌, ◌≤◌, ◌≡◌, refl, some, true, false, not, ◌||◌, ◌==◌, eq_refl, ltb, leb→le,
  and-true, present, text_or_empty, inl, inr, Bool-cases, arith, ◌⊎◌, if-true, if-false,
  if◌then◌else◌,
}
use aws_access_bridge.Base.Errors.{ServiceError, Result, ok, err}
use aws_access_bridge.Internal.{
  Seen, Fault, no_fault, on_get, on_put, stale_get, alive, claim, Request, in_window,
  validate_internal_request, replayed, outside_window, distance, number_from,
}

lt→ltb : (a b : ℕ) → a < b → ltb a b ≡ true
lt→ltb a b h = ground arith

-- Neither `get` nor `put` throws.
abbrev pub Answers : Fault → Type 0
Answers no_fault = Unit
Answers stale_get = Unit
Answers on_get = ⊥
Answers on_put = ⊥

module _ (ttl_seconds window_ms : ℕ) (r : Request) (earlier : Fault) (first second : ℕ)
    (seen : Seen) where
  abbrev pub once : Result (Unit {0}) × Seen
  once = validate_internal_request true ttl_seconds window_ms earlier first r seen

  abbrev sent_at : ℕ
  sent_at = number_from 0 (text_or_empty r.timestamp)

  abbrev recorded : Seen
  recorded s = if text_or_empty r.signature == s then some (first + ttl_seconds * 1000) else seen s

  window-le :
      (now : ℕ)
      → in_window window_ms now (text_or_empty r.timestamp) ≡ true
      → distance now sent_at ≤ window_ms
  unfolding in_window
  window-le now h = leb→le (distance now sent_at) window_ms (and-true _ _ h).1

  -- A claim without an exception has found the record, or writes one.
  claim_once :
      (fault : Fault)
      → Answers fault
      → (claim true ttl_seconds fault first (text_or_empty r.signature) seen ≡ (true, recorded))
        ⊎ (claim true ttl_seconds fault first (text_or_empty r.signature) seen ≡ (false, seen))
  unfolding claim
  claim_once no_fault h = elim (Bool-cases (alive first (seen (text_or_empty r.signature)))) [
    | inl k ↦ inr (if-true _ _ _ k)
    | inr k ↦ inl (if-false _ _ _ k)
  ]
  claim_once stale_get h = inl refl
  claim_once on_get h = absurd h
  claim_once on_put h = absurd h

  -- What an accepted request says of the guards, and what it leaves.
  accepted :
      Answers earlier
      → once.0 ≡ ok tt
      → ((not (present r.signature) || not (present r.timestamp)) ≡ false)
        × (in_window window_ms first (text_or_empty r.timestamp) ≡ true)
        × (r.is_valid ≡ true)
        × (once.1 ≡ recorded)
  unfolding validate_internal_request
  accepted w e = elim (Bool-cases (not (present r.signature) || not (present r.timestamp))) [
    | inl a ↦ cc (rw a at e)
    | inr a ↦ elim (Bool-cases (in_window window_ms first (text_or_empty r.timestamp))) [
      | inr b ↦ cc (rw (a, b) at e)
      | inl b ↦ elim (Bool-cases r.is_valid) [
        | inr v ↦ cc (rw (a, b, v) at e)
        | inl v ↦ elim (claim_once earlier w) [
          | inl k ↦ (a, b, v, rw (a, b, v, k) refl)
          | inr k ↦ cc (rw (a, b, v, k) at e)
        ]
      ]
    ]
  ]

  -- The claim of a signature whose record is alive.
  claim_again :
      (fault : Fault)
      → alive second (recorded (text_or_empty r.signature)) ≡ true
      → (claim true ttl_seconds fault second (text_or_empty r.signature) recorded
          ≡ (false, recorded))
        ⊎ ((fault ≡ on_get) ⊎ (fault ≡ stale_get))
  unfolding claim
  claim_again no_fault h = inl (if-true _ _ _ h)
  claim_again on_get h = inr (inl refl)
  claim_again on_put h = inl (if-true _ _ _ h)
  claim_again stale_get h = inr (inr refl)

  -- A request that was accepted, at a claim at which the store did not throw, is refused when it is
  -- presented again later, and the records stay as they are, if a record outlives twice the window;
  -- unless the lookup of the second claim throws or does not show the record, and the time is still
  -- within the window of the request's timestamp: after the window it is refused whatever the store does.
  pub validate_internal_request-replayed :
      window_ms + window_ms < ttl_seconds * 1000
      → first ≤ second
      → Answers earlier
      → once.0 ≡ ok tt
      → (fault : Fault)
      → ((e : ServiceError) × (validate_internal_request true ttl_seconds window_ms fault second r
              once.1
            ≡ (err e, once.1)))
        ⊎ ((distance second sent_at ≤ window_ms) × ((fault ≡ on_get) ⊎ (fault ≡ stale_get)))
  unfolding validate_internal_request
  validate_internal_request-replayed h le w e fault =
      let (a, b, v, left) = accepted w e in
      elim (Bool-cases (in_window window_ms second (text_or_empty r.timestamp))) [
        | inr c ↦ inl (outside_window, rw (a, c) refl)
        | inl c ↦
            let near = window-le first b in
            let still = window-le second c in
            let lives = lt→ltb second (first + ttl_seconds * 1000) (omega arith) in
            let found : alive second (recorded (text_or_empty r.signature)) ≡ true =
              rw (eq_refl (text_or_empty r.signature)) lives in
            elim (claim_again fault found) [
              | inl g ↦ inl (replayed, rw left (rw (a, c, v, g) refl))
              | inr g ↦ inr (still, g)
            ]
      ]
