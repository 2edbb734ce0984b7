-- ===== src/Access/Laws.antt =====
-- What a grant and a revocation do to the test that guards a role.
use aws_access_bridge.Base.{
  String, ◌≡◌, ◌≢◌, ◌⊎◌, inl, inr, refl, sym, ◌∙◌, Option, none, some, List, [], ◌∷◌, ◌++◌, true,
  false, not, ◌||◌, ◌==◌, eq_iff, eq_refl, any, any-append, any-keep_if, any-keep_if-not, All,
  Bool-cases, Option-cases, and-true, or-true, or-right,
}
use aws_access_bridge.Base.Errors.{ok, err, forbidden}
use aws_access_bridge.Owner.{Owner, owner_clause}
use aws_access_bridge.Access.{
  Grant, not_authorized, is_for, verify_user_has_access_to_role, conflicts,
  grant_user_access_to_role, names, same_id, revoke_user_access_to_role,
}

module _ (o : Owner) where
  -- The owner's anchor is no other account's: a row under it is the owner's, or has no id.
  abbrev pub IsAnchor : Grant → Type 0
  IsAnchor g = g.user_email ≡ o.anchor_email → (g.user_id ≡ none) ⊎ (g.user_id ≡ o.user_id)

  owner_clause-same :
      (id : Option String) (email : String)
      → email ≡ o.anchor_email
      → (id ≡ none) ⊎ (id ≡ o.user_id)
      → owner_clause o id email ≡ true
  unfolding owner_clause
  owner_clause-same none email e h = rw (e, eq_refl o.anchor_email)
  owner_clause-same (some i) email e (inl h) = cc
  owner_clause-same (some i) email e (inr h) = rw (sym h, eq_refl i) refl

  owner_clause-same_id :
      (id : Option String) (email : String)
      → same_id id o.user_id ≡ true
      → owner_clause o id email ≡ true
  unfolding owner_clause
  owner_clause-same_id none email h = cc
  owner_clause-same_id (some i) email h = elim (Option-cases o.user_id) [
    | inl e ↦ cc (rw e at h)
    | inr (u, e) ↦ rw e (rw e at h)
  ]

  module _ (account role : String) where
    is_for-conflicts :
        (g : Grant)
        → IsAnchor g
        → conflicts o account role g ≡ true
        → is_for o account role g ≡ true
    unfolding is_for conflicts
    is_for-conflicts g h c =
        let (who, what) = and-true _ (names o account role g) c in rw (owns who, what) refl
      where
        owns :
            (g.user_email == o.anchor_email || same_id g.user_id o.user_id) ≡ true
            → owner_clause o g.user_id g.user_email ≡ true
        owns who = elim (or-true _ _ who) [
          | inl e ↦
              let e' = (eq_iff g.user_email o.anchor_email).0 e in
              owner_clause-same g.user_id g.user_email e' (h e')
          | inr e ↦ owner_clause-same_id g.user_id g.user_email e
        ]

    any-is_for :
        (gs : List Grant)
        → All IsAnchor gs
        → any (conflicts o account role) gs ≡ true
        → any (is_for o account role) gs ≡ true
    any-is_for [] h e = e
    any-is_for (g ∷ gs) (k, h) e = elim (or-true (conflicts o account role g) _ e) [
      | inl c ↦ rw (any, is_for-conflicts g k c) refl
      | inr c ↦ or-right (is_for o account role g) _ (any-is_for gs h c)
    ]

    abbrev granted : Grant
    granted = record {
      user_email = o.anchor_email;
      user_id = o.user_id;
      aws_account_id = account;
      role_name = role;
      hidden = false;
    }

    is_for-granted : is_for o account role granted ≡ true
    unfolding is_for
    is_for-granted =
        rw
          (
            owner_clause-same o.user_id o.anchor_email refl (inr refl),
            eq_refl account,
            eq_refl role,
          )
          refl

    any-granted : (gs : List Grant) → any (is_for o account role) (gs ++ granted ∷ []) ≡ true
    any-granted gs =
        any-append (is_for o account role) gs (granted ∷ [])
        ∙ or-right (any (is_for o account role) gs) _ (rw is_for-granted refl)

    -- After a grant the test passes, whether the row was there or not, if no row under the owner's
    -- anchor address has another account's id.
    pub verify-grant :
        (gs : List Grant)
        → All IsAnchor gs
        → verify_user_has_access_to_role o account role
            (grant_user_access_to_role o account role gs)
          ≡ ok tt
    unfolding grant_user_access_to_role verify_user_has_access_to_role
    verify-grant gs h = elim (Bool-cases (any (conflicts o account role) gs)) [
      | inl c ↦ rw (c, any-is_for gs h c) refl
      | inr c ↦ rw (c, any-granted gs) refl
    ]

    is_for-other :
        (p : Owner) (account' role' : String) (g : Grant)
        → (account' ≢ account) ⊎ (role' ≢ role)
        → is_for p account' role' g ≡ true
        → not (is_for o account role g) ≡ true
    unfolding is_for
    is_for-other p account' role' g h e =
        let (a, r) =
          and-true (g.aws_account_id == account') _ (and-true _ (names p account' role' g) e).1 in
        elim (Bool-cases (is_for o account role g)) [
          | inr f ↦ rw f refl
          | inl f ↦
              let (b, q) =
                and-true (g.aws_account_id == account) _
                  (and-true _ (names o account role g) f).1 in
              absurd (elim h [
                | inl n ↦ n (sym ((eq_iff _ _).0 a) ∙ (eq_iff _ _).0 b)
                | inr n ↦ n (sym ((eq_iff _ _).0 r) ∙ (eq_iff _ _).0 q)
              ])
        ]

    -- After a revocation the test fails for that owner and role, and the test of any owner for any
    -- other role answers as before.
    pub verify-revoke :
        (gs : List Grant)
        → (verify_user_has_access_to_role o account role
              (revoke_user_access_to_role o account role gs)
            ≡ err (forbidden (not_authorized account role)))
          × ((p : Owner) (account' role' : String)
              → (account' ≢ account) ⊎ (role' ≢ role)
              → verify_user_has_access_to_role p account' role'
                  (revoke_user_access_to_role o account role gs)
                ≡ verify_user_has_access_to_role p account' role' gs)
    unfolding revoke_user_access_to_role verify_user_has_access_to_role
    verify-revoke gs = (
      rw (any-keep_if-not (is_for o account role) gs) refl,
      λ p account' role' h.
          rw
            (any-keep_if (is_for p account' role') (λ g. not (is_for o account role g)) gs
              (λ g e. is_for-other p account' role' g h e))
            refl,
    )
