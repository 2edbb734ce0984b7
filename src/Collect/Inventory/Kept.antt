-- ===== src/Collect/Inventory/Kept.antt =====
-- What a collection leaves of the inventory: nothing is lost that was not read in full, and nothing
-- stale is left of what was.
use aws_access_bridge.Base.{
  ≢-differ, ℕ, suc, String, ◌≡◌, refl, ap, sym, ◌∙◌, List, [], ◌∷◌, Bool, true, false, not, ◌&&◌,
  ◌||◌, ◌==◌, keep_if, length, nat_eq, if◌then◌else◌, any, any-append, any-keep_if, Bool-cases, inl,
  inr, or-right, differ, or-false, arith, and-false,
}
use aws_access_bridge.Base.Errors.{Result, ok, err, Result-cases}
use mathlib.Core.Bool.{true≢false}
use aws_access_bridge.Collect.Regions.{collect_all_regions, sweep, global_region}
use aws_access_bridge.Collect.Inventory.Keys.{has, same_key-eq, same_key_trans}
use aws_access_bridge.Collect.Inventory.{
  ResourceDiscoveryItem, ResourceInventoryItem, Collector, Reading, same_key, upsert_resource,
  is_stale, delete_stale_resources, no_failure, read_one, read_collectors, expected_regions,
  store_items, prune_types, collect_for_account,
}

abbrev is_err : {A : Type 0} → Result A → Bool
is_err (ok a) = false
is_err (err e) = true

-- Whether some call of the collector fails.
abbrev is_incomplete : List String → Collector → Bool
is_incomplete regions c =
    if c.is_regional
    then any (λ region. is_err (c.collect region)) regions
    else is_err (c.collect global_region)

module _ (r : ResourceInventoryItem) where
  kept-upsert :
      (x s : ResourceInventoryItem)
      → same_key r x ≡ false
      → same_key r s ≡ true
      → not (same_key x s) ≡ true
  kept-upsert x s e k = elim (Bool-cases (same_key x s)) [
    | inl f ↦ absurd (true≢false (sym (same_key_trans r x s k f) ∙ e))
    | inr f ↦ rw f refl
  ]

  has-upsert_resource :
      (x : ResourceInventoryItem) (rows : List ResourceInventoryItem)
      → has r rows ≡ true
      → has r (upsert_resource x rows) ≡ true
  unfolding has upsert_resource
  has-upsert_resource x rows h = elim (Bool-cases (same_key r x)) [
    | inl e ↦
        any-append (same_key r) (keep_if (λ s. not (same_key x s)) rows) (x ∷ [])
        ∙ or-right (any (same_key r) (keep_if (λ s. not (same_key x s)) rows))
            (any (same_key r) (x ∷ [])) (rw e refl)
    | inr e ↦
        any-append (same_key r) (keep_if (λ s. not (same_key x s)) rows) (x ∷ [])
        ∙ rw
            (
              any-keep_if (same_key r) (λ s. not (same_key x s)) rows (λ s k. kept-upsert x s e k),
              h,
            )
            refl
  ]

  has-store_items :
      (account : String) (now : ℕ) (is : List ResourceDiscoveryItem)
      (rows : List ResourceInventoryItem)
      → has r rows ≡ true
      → has r (store_items account now is rows) ≡ true
  unfolding store_items
  has-store_items account now [] rows h = h
  has-store_items account now (i ∷ is) rows h =
      has-store_items account now is
        (upsert_resource (record { aws_account_id = account; item = i; collected_at = now }) rows)
        (has-upsert_resource (record { aws_account_id = account; item = i; collected_at = now })
          rows h)

  kept-delete :
      (account type : String) (now : ℕ) (s : ResourceInventoryItem)
      → (type == r.item.resource_type) ≡ false
      → same_key r s ≡ true
      → not (is_stale account type now s) ≡ true
  unfolding is_stale
  kept-delete account type now s h k =
      let (_, same, _) = same_key-eq r s k in
      let other : (s.item.resource_type == type) ≡ false =
        rw (sym same)
          (≢-differ r.item.resource_type type (λ e. differ type r.item.resource_type h (sym e))) in
      rw (other, and-false (s.aws_account_id == account)) refl

  has-prune_types :
      (account : String) (now : ℕ) (types : List String) (rows : List ResourceInventoryItem)
      → any (λ t. t == r.item.resource_type) types ≡ false
      → has r rows ≡ true
      → has r (prune_types account now types rows) ≡ true
  unfolding prune_types has delete_stale_resources
  has-prune_types account now [] rows h k = k
  has-prune_types account now (t ∷ ts) rows h k =
      let (other, others) = or-false (t == r.item.resource_type) _ h in
      has-prune_types account now ts (delete_stale_resources account t now rows) others (
        any-keep_if (same_key r) (λ s. not (is_stale account t now s)) rows
          (λ s e. kept-delete account t now s other e)
        ∙ k)

module _ (collect : String → Result (List ResourceDiscoveryItem)) where
  no_failure-sweep :
      (regions : List String)
      → no_failure (sweep collect regions).failed_regions
        ≡ not (any (λ region. is_err (collect region)) regions)
  unfolding sweep
  no_failure-sweep [] = refl
  no_failure-sweep (region ∷ regions) = elim (Result-cases (collect region)) [
    | inl (items, e) ↦ rw e (no_failure-sweep regions)
    | inr (x, e) ↦ rw e refl
  ]

  length-sweep :
      (regions : List String)
      → any (λ region. is_err (collect region)) regions ≡ false
      → length (sweep collect regions).succeeded_regions ≡ length regions
  unfolding sweep
  length-sweep [] h = refl
  length-sweep (region ∷ regions) h = elim (Result-cases (collect region)) [
    | inl (items, e) ↦ rw e (ap (λ n. suc n) (length-sweep regions (or-false _ _ h).1))
    | inr (x, e) ↦ cc (rw e at h)
  ]

nat_eq_refl : (n : ℕ) → nat_eq n n ≡ true
nat_eq_refl n = ground arith

-- What one collector adds to the types that were read in full.
abbrev adds : Bool → String → List String → List String
adds b type types = if b then types else type ∷ types

read_one-types :
    (regions : List String) (c : Collector) (rest : Reading)
    → (read_one c.resource_type
        (expected_regions c.is_regional regions)
        (collect_all_regions c.is_regional c.collect regions)
        rest).collected_types
      ≡ adds (is_incomplete regions c) c.resource_type rest.collected_types
unfolding collect_all_regions
read_one-types regions c rest = elim (Bool-cases c.is_regional) [
  | inl e ↦ elim (Bool-cases (any (λ region. is_err (c.collect region)) regions)) [
    | inl f ↦ rw (e, f, no_failure-sweep c.collect regions, f, and-false _) refl
    | inr f ↦
        rw
          (
            e,
            f,
            no_failure-sweep c.collect regions,
            f,
            length-sweep c.collect regions f,
            nat_eq_refl (length regions),
          )
          refl
  ]
  | inr e ↦ elim (Result-cases (c.collect global_region)) [
    | inl (items, f) ↦ rw (e, f) refl
    | inr (x, f) ↦ rw (e, f) refl
  ]
]

-- Whether a collector of the type reads it in full.
abbrev pub reads_fully : List String → String → List Collector → Bool
reads_fully regions type = any (λ c. c.resource_type == type && not (is_incomplete regions c))

any-adds :
    (b : Bool) (type own : String) (types : List String)
    → any (λ t. t == type) (adds b own types)
      ≡ ((own == type && not b) || any (λ t. t == type) types)
any-adds true type own types = rw (and-false (own == type)) refl
any-adds false type own types = elim (Bool-cases (own == type)) [
  | inl e ↦ rw e refl
  | inr e ↦ rw e refl
]

pub read_collectors-types :
    (regions : List String) (type : String) (cs : List Collector)
    → any (λ t. t == type) (read_collectors regions cs).collected_types
      ≡ reads_fully regions type cs
unfolding read_collectors
read_collectors-types regions type [] = refl
read_collectors-types regions type (c ∷ cs) =
    ap (any (λ t. t == type)) (read_one-types regions c (read_collectors regions cs))
    ∙ any-adds (is_incomplete regions c) type c.resource_type
        (read_collectors regions cs).collected_types
    ∙ ap (λ b. (c.resource_type == type && not (is_incomplete regions c)) || b)
        (read_collectors-types regions type cs)

-- A resource of the inventory is still in it after a collection for an account, unless some
-- collector of its type has read each of its regions without an error.
pub collect_for_account-kept :
    (account : String) (now : ℕ) (regions : List String) (collectors : List Collector)
    (r : ResourceInventoryItem) (rows : List ResourceInventoryItem)
    → has r rows ≡ true
    → reads_fully regions r.item.resource_type collectors ≡ false
    → has r (collect_for_account account now regions collectors rows).1 ≡ true
unfolding collect_for_account
collect_for_account-kept account now regions collectors r rows h partial =
    let reading = read_collectors regions collectors in
    has-prune_types r account now reading.collected_types
      (store_items account now reading.all_items rows)
      (read_collectors-types regions r.item.resource_type collectors ∙ partial)
      (has-store_items r account now reading.all_items rows h)
