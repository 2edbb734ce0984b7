-- ===== src/Collect/Batch/Due.antt =====
-- A batch that ends has stamped its principals.
use aws_access_bridge.Base.{
  ℕ, ◌+◌, ◌*◌, ◌≤◌, String, ◌≡◌, refl, Option, none, some, List, [], ◌∷◌, map, Bool, true, false,
  ◌&&◌, ◌==◌, ltb, any, Bool-cases, inl, inr, or-false, and-false, eq_iff, length, if◌then◌else◌,
  arith,
}
use aws_access_bridge.Base.Errors.{ServiceError, Result, ok, err}
use aws_access_bridge.Collect.Batch.{
  Config, Collection, Tally, Progress, going, paused, is_due, update_last_attempt_time,
  update_last_collected_time, is_row_of, attempted, collected_at, try_attempt, fail_or_pause,
  stamp_collected, after_attempt, after_collection, collect_principal, collect_batch, and_then,
  handle_scheduled_task, statements_per_account, one_more,
}

going-injective : {t u : Tally} → going t ≡ going u → t ≡ u
going-injective h = cc

not_below : (a b : ℕ) → a ≤ b → ltb b a ≡ false
not_below a b h = ground arith

budget-ok :
    (b : Bool) (e : ServiceError) (p q : Progress) → (if b then err e else ok p) ≡ ok q → p ≡ q
budget-ok true e p q h = cc
budget-ok false e p q h = cc

any-map :
    {A : Type 0} (p : A → Bool) (f : A → A) (xs : List A)
    → ((x : A) → p x ≡ false → p (f x) ≡ false)
    → any p xs ≡ false
    → any p (map f xs) ≡ false
any-map p f [] h e = refl
any-map p f (x ∷ xs) h e =
    let (here, others) = or-false (p x) (any p xs) e in rw (h x here) (any-map p f xs h others)

any-map-none :
    {A : Type 0} (p : A → Bool) (f : A → A) (xs : List A)
    → ((x : A) → p (f x) ≡ false)
    → any p (map f xs) ≡ false
any-map-none p f [] h = refl
any-map-none p f (x ∷ xs) h = rw (h x) (any-map-none p f xs h)

-- A row that makes the principal due.
abbrev pub makes_due : {Keys : Type 0} → Collection Keys → ℕ → String → Config → Bool
makes_due k older_than arn c =
    is_row_of arn k.collection_type c && is_due k.collection_type older_than c

module _ {Keys : Type 0} (k : Collection Keys) (older_than : ℕ)
    (late : ltb k.now older_than ≡ false) (arn : String) where
  abbrev Clear : Tally → Type 0
  Clear t = any (makes_due k older_than arn) t.configs ≡ false

  abbrev ClearAfter : Progress → Type 0
  ClearAfter (going t) = Clear t
  ClearAfter (paused resets_at t) = Unit

  stamped-makes_due :
      (c : Config) → (makes_due k older_than arn) (record c { last_attempt_at = k.now }) ≡ false
  unfolding is_due
  stamped-makes_due c =
      rw (late, and-false (c.collection_type == k.collection_type && c.enabled), and-false _) refl

  attempted-Clear : (other : String) (t : Tally) → Clear t → Clear (attempted k other t)
  unfolding update_last_attempt_time
  attempted-Clear other t h =
      any-map (makes_due k older_than arn) _ t.configs
        (λ c e. elim (Bool-cases (is_row_of other k.collection_type c)) [
          | inl f ↦ rw f (stamped-makes_due c)
          | inr f ↦ rw f e
        ])
        h

  attempted-own : (t : Tally) → Clear (attempted k arn t)
  unfolding update_last_attempt_time
  attempted-own t = any-map-none (makes_due k older_than arn) _ t.configs (λ c.
      elim (Bool-cases (is_row_of arn k.collection_type c)) [
        | inl f ↦ rw f (stamped-makes_due c)
        | inr f ↦ rw (f, f) refl
      ])

  collected_at-Clear : (other : String) (t : Tally) → Clear t → Clear (collected_at k other t)
  unfolding update_last_collected_time is_due
  collected_at-Clear other t h =
      any-map (makes_due k older_than arn) _ t.configs
        (λ c e. elim (Bool-cases (is_row_of other k.collection_type c)) [
          | inl f ↦ rw f e
          | inr f ↦ rw f e
        ])
        h

  try_attempt-Clear :
      (fault : Option ServiceError) (other : String) (t : Tally)
      → Clear t
      → Clear (try_attempt k fault other t)
  try_attempt-Clear none other t h = attempted-Clear other t h
  try_attempt-Clear (some e) other t h = h

  fail_or_pause-ClearAfter :
      (limit : Option ℕ) (other : String) (t : Tally)
      → Clear t
      → ClearAfter (fail_or_pause k limit other t)
  fail_or_pause-ClearAfter (some n) other t h = tt
  fail_or_pause-ClearAfter none other t h =
      try_attempt-Clear (k.attempt_fault other) other (one_more t) h

  stamp_collected-ClearAfter :
      (fault : Option ServiceError) (other : String) (t : Tally)
      → Clear t
      → ClearAfter (stamp_collected k fault other t)
  stamp_collected-ClearAfter none other t h = collected_at-Clear other t h
  stamp_collected-ClearAfter (some e) other t h =
      fail_or_pause-ClearAfter (k.is_d1_daily_limit_error e) other t h

  stamped-ClearAfter :
      (collected : ℕ) (other : String) (t : Tally)
      → Clear (attempted k other t)
      → ClearAfter (after_attempt k none collected other t)
  stamped-ClearAfter collected other t h = elim (Bool-cases (ltb 0 collected)) [
    | inl e ↦
        rw e (stamp_collected-ClearAfter (k.collected_fault other) other (attempted k other t) h)
    | inr e ↦ rw e h
  ]

  after_attempt-ClearAfter :
      (fault : Option ServiceError) (collected : ℕ) (other : String) (t : Tally)
      → Clear t
      → ClearAfter (after_attempt k fault collected other t)
  after_attempt-ClearAfter (some e) collected other t h = h
  after_attempt-ClearAfter none collected other t h =
      stamped-ClearAfter collected other t (attempted-Clear other t h)

  after_collection-ClearAfter :
      (r : Result ℕ) (other : String) (t : Tally)
      → Clear t
      → ClearAfter (after_collection k r other t)
  after_collection-ClearAfter (err e) other t h =
      fail_or_pause-ClearAfter (k.is_d1_daily_limit_error e) other t h
  after_collection-ClearAfter (ok n) other t h =
      after_attempt-ClearAfter (k.attempt_fault other) n other
        (record t { succeeded_items = t.succeeded_items + n }) h

  -- The principal's own turn.
  module _ (stamps : k.attempt_fault arn ≡ none) where
    failed-own : (limit : Option ℕ) (t : Tally) → ClearAfter (fail_or_pause k limit arn t)
    failed-own (some n) t = tt
    failed-own none t = rw stamps (attempted-own (one_more t))

    turn-own : (r : Result ℕ) (t : Tally) → ClearAfter (after_collection k r arn t)
    turn-own (err e) t = failed-own (k.is_d1_daily_limit_error e) t
    turn-own (ok n) t = rw stamps (
        stamped-ClearAfter n arn (record t { succeeded_items = t.succeeded_items + n })
          (attempted-own (record t { succeeded_items = t.succeeded_items + n })))

  and_then-ClearAfter :
      (p : Progress) (next : Tally → Progress)
      → ClearAfter p
      → ((t : Tally) → Clear t → ClearAfter (next t))
      → ClearAfter (and_then k p next)
  and_then-ClearAfter (going t) next h n = n t h
  and_then-ClearAfter (paused m t) next h n = tt

  and_then-own :
      (p : Progress) (next : Tally → Progress)
      → ((t : Tally) → ClearAfter (next t))
      → ClearAfter (and_then k p next)
  and_then-own (going t) next n = n t
  and_then-own (paused m t) next n = tt

  collect_batch-kept :
      (arns : List String) (t : Tally) → Clear t → ClearAfter (collect_batch k arns t)
  unfolding collect_batch
  collect_batch-kept [] t h = h
  collect_batch-kept (other ∷ arns) t h =
      and_then-ClearAfter (after_collection k (collect_principal k other) other t)
        (collect_batch k arns) (after_collection-ClearAfter (collect_principal k other) other t h)
        (collect_batch-kept arns)

  collect_batch-stamps :
      (arns : List String) (t : Tally)
      → k.attempt_fault arn ≡ none
      → any (λ a. a == arn) arns ≡ true
      → ClearAfter (collect_batch k arns t)
  unfolding collect_batch
  collect_batch-stamps [] t stamps h = cc
  collect_batch-stamps (other ∷ arns) t stamps h = elim (Bool-cases (other == arn)) [
    | inl e ↦ rw ((eq_iff other arn).0 e) (
        and_then-ClearAfter (after_collection k (collect_principal k arn) arn t)
          (collect_batch k arns) (turn-own stamps (collect_principal k arn) t)
          (collect_batch-kept arns))
    | inr e ↦
        and_then-own (after_collection k (collect_principal k other) other t) (collect_batch k arns)
          (λ u. collect_batch-stamps arns u stamps (rw e at h))
  ]

  Clear-going : (p : Progress) (t : Tally) → p ≡ going t → ClearAfter p → Clear t
  Clear-going (going u) t e h = rw (going-injective e) at h
  Clear-going (paused m u) t e h = cc

-- A scheduled run that ends without a pause leaves no principal of its batch due, whatever happened
-- to it, unless the stamp of its attempt failed: no row of it is older than a cutoff that is not
-- after the time of the run.
pub handle_scheduled_task-stamps :
    {Keys : Type 0} (k : Collection Keys) (older_than remaining : ℕ) (arns : List String)
    (configs : List Config) (arn : String) (t : Tally)
    → older_than ≤ k.now
    → handle_scheduled_task k remaining arns configs ≡ ok (going t)
    → k.attempt_fault arn ≡ none
    → any (λ a. a == arn) arns ≡ true
    → any (makes_due k older_than arn) t.configs ≡ false
unfolding handle_scheduled_task
handle_scheduled_task-stamps k older_than remaining arns configs arn t late h stamps inside =
    let ran = budget-ok (ltb remaining (length arns * statements_per_account)) _ _ (going t) h in
    Clear-going k older_than (not_below older_than k.now late) arn _ t ran
      (collect_batch-stamps k older_than (not_below older_than k.now late) arn arns _ stamps inside)
