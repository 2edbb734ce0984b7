-- ===== src/Collect/Inventory/Fresh.antt =====
-- A type that was read in full has no stale row left.
use aws_access_bridge.Base.{
  ℕ, String, ◌≡◌, refl, ◌∙◌, List, [], ◌∷◌, Bool, true, false, not, ◌==◌, keep_if, any,
  any-keep_if-not, Bool-cases, inl, inr, or-false, eq_iff,
}
use aws_access_bridge.Collect.Inventory.{
  ResourceInventoryItem, Collector, is_stale, delete_stale_resources, read_collectors, store_items,
  prune_types, collect_for_account,
}
use aws_access_bridge.Collect.Inventory.Kept.{reads_fully, read_collectors-types}

keep_if-none :
    (p q : ResourceInventoryItem → Bool) (rows : List ResourceInventoryItem)
    → any p rows ≡ false
    → any p (keep_if q rows) ≡ false
keep_if-none p q [] h = refl
keep_if-none p q (r ∷ rows) h =
    let (none_here, others) = or-false (p r) _ h in
    elim (Bool-cases (q r)) [
      | inl e ↦ rw (keep_if, e, any, none_here) (keep_if-none p q rows others)
      | inr e ↦ rw (keep_if, e) (keep_if-none p q rows others)
    ]

module _ (account type : String) (now : ℕ) where
  prune_types-none :
      (types : List String) (rows : List ResourceInventoryItem)
      → any (is_stale account type now) rows ≡ false
      → any (is_stale account type now) (prune_types account now types rows) ≡ false
  unfolding prune_types delete_stale_resources
  prune_types-none [] rows h = h
  prune_types-none (t ∷ ts) rows h =
      prune_types-none ts (delete_stale_resources account t now rows)
        (keep_if-none (is_stale account type now) (λ r. not (is_stale account t now r)) rows h)

  prune_types-fresh :
      (types : List String) (rows : List ResourceInventoryItem)
      → any (λ t. t == type) types ≡ true
      → any (is_stale account type now) (prune_types account now types rows) ≡ false
  unfolding prune_types delete_stale_resources
  prune_types-fresh [] rows h = cc
  prune_types-fresh (t ∷ ts) rows h = elim (Bool-cases (t == type)) [
    | inl e ↦
        prune_types-none ts (delete_stale_resources account t now rows)
          (rw ((eq_iff t type).0 e) (any-keep_if-not (is_stale account type now) rows))
    | inr e ↦ prune_types-fresh ts (delete_stale_resources account t now rows) (rw e at h)
  ]

  -- After a collection for an account, a type that some collector has read in full, without an error
  -- in any of its regions, has no row of the account that is older than the collection.
  pub collect_for_account-fresh :
      (regions : List String) (collectors : List Collector) (rows : List ResourceInventoryItem)
      → reads_fully regions type collectors ≡ true
      → any (is_stale account type now) (collect_for_account account now regions collectors rows).1
        ≡ false
  unfolding collect_for_account
  collect_for_account-fresh regions collectors rows full =
      let reading = read_collectors regions collectors in
      prune_types-fresh reading.collected_types (store_items account now reading.all_items rows)
        (read_collectors-types regions type collectors ∙ full)
