-- ===== src/Collect/Inventory/Keys.antt =====
-- The primary key of `resource_inventory`, as a relation on rows.
use aws_access_bridge.Base.{◌≡◌, refl, sym, ◌∙◌, List, Bool, true, any, and-true, eq_iff}
use aws_access_bridge.Collect.Inventory.{ResourceInventoryItem, same_key}

-- Whether a row has the key.
unfoldable pub has : ResourceInventoryItem → List ResourceInventoryItem → Bool
has r rows = any (same_key r) rows

pub same_key-eq :
    (r s : ResourceInventoryItem)
    → same_key r s ≡ true
    → (r.aws_account_id ≡ s.aws_account_id)
      × (r.item.resource_type ≡ s.item.resource_type)
      × (r.item.resource_id ≡ s.item.resource_id)
unfolding same_key
same_key-eq r s h =
    let (ab, c) = and-true _ _ h in
    let (a, b) = and-true _ _ ab in
    (
      (eq_iff r.aws_account_id s.aws_account_id).0 a,
      (eq_iff r.item.resource_type s.item.resource_type).0 b,
      (eq_iff r.item.resource_id s.item.resource_id).0 c,
    )

eq-same_key :
    (r s : ResourceInventoryItem)
    → r.aws_account_id ≡ s.aws_account_id
    → r.item.resource_type ≡ s.item.resource_type
    → r.item.resource_id ≡ s.item.resource_id
    → same_key r s ≡ true
unfolding same_key
eq-same_key r s a b c =
    rw
      (
        (eq_iff r.aws_account_id s.aws_account_id).1 a,
        (eq_iff r.item.resource_type s.item.resource_type).1 b,
        (eq_iff r.item.resource_id s.item.resource_id).1 c,
      )
      refl

-- A key that two rows share with a third.
pub same_key_trans :
    (r x s : ResourceInventoryItem)
    → same_key r s ≡ true
    → same_key x s ≡ true
    → same_key r x ≡ true
same_key_trans r x s h k =
    let (a, b, c) = same_key-eq r s h in
    let (a', b', c') = same_key-eq x s k in eq-same_key r x (a ∙ sym a') (b ∙ sym b') (c ∙ sym c')
