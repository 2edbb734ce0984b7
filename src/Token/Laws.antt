-- ===== src/Token/Laws.antt =====
-- A token authenticates its owner until it expires or is deleted, and no one else.
use aws_access_bridge.Base.{
  ℕ, ◌<◌, String, ◌≡◌, refl, ap, sym, Option, none, some, List, [], ◌∷◌, ◌++◌, Bool, true, false,
  ◌==◌, keep_if, ltb, leb, any, Bool-cases, Option-cases, inl, inr, or-false, arith, eq_refl,
  eq_iff, differ, present, text_or_empty, if◌then◌else◌, ◌≢◌, ◌∙◌,
}
use aws_access_bridge.Base.Errors.{ServiceError, Result, ok, err}
use aws_access_bridge.Owner.{Owner, owner_clause}
use aws_access_bridge.Identity.Resolver.{AccountIdentity}
use aws_access_bridge.Token.{
  TokenRow, TokenEnvironment, CreatedToken, new_row, get_by_token_hash, is_active_hash,
  create_token, authenticate_with_pat, current_address, authenticated, invalid_token, address_from,
  active_token_count, effective_expiry, delete, is_owned,
}

-- Whether some row has the digest.
abbrev has_hash : String → List TokenRow → Bool
has_hash hash = any (λ row. row.token_hash == hash)

get_by_token_hash-unknown :
    (hash : String) (now : ℕ) (rows : List TokenRow)
    → has_hash hash rows ≡ false
    → get_by_token_hash hash now rows ≡ none
unfolding get_by_token_hash is_active_hash
get_by_token_hash-unknown hash now [] h = refl
get_by_token_hash-unknown hash now (row ∷ rows) h =
    let (other, others) = or-false (row.token_hash == hash) _ h in
    rw other (get_by_token_hash-unknown hash now rows others)

get_by_token_hash-new :
    (hash : String) (now : ℕ) (rows : List TokenRow) (row : TokenRow)
    → has_hash hash rows ≡ false
    → is_active_hash hash now row ≡ true
    → get_by_token_hash hash now (rows ++ row ∷ []) ≡ some row
unfolding get_by_token_hash is_active_hash
get_by_token_hash-new hash now [] row h a = rw a refl
get_by_token_hash-new hash now (r ∷ rows) row h a =
    let (other, others) = or-false (r.token_hash == hash) (has_hash hash rows) h in
    rw other (get_by_token_hash-new hash now rows row others a)

lt→ltb : (a b : ℕ) → a < b → ltb a b ≡ true
lt→ltb a b h = ground arith

-- What an owner writes is its own.
owner_clause-own : (o : Owner) → owner_clause o o.user_id o.anchor_email ≡ true
unfolding owner_clause
owner_clause-own o = elim (Option-cases o.user_id) [
  | inl e ↦ rw e (eq_refl o.anchor_email)
  | inr (id, e) ↦ rw e (eq_refl id)
]

-- A deletion that takes the last row, where no other has the digest.
delete-new :
    (hash token_id : String) (o : Owner) (rows : List TokenRow) (row : TokenRow)
    → has_hash hash rows ≡ false
    → is_owned token_id o row ≡ true
    → has_hash hash (delete token_id o (rows ++ row ∷ [])) ≡ false
unfolding delete
delete-new hash token_id o [] row h e = rw (keep_if, e) refl
delete-new hash token_id o (r ∷ rows) row h e =
    let (other, others) = or-false (r.token_hash == hash) (has_hash hash rows) h in
    elim (Bool-cases (is_owned token_id o r)) [
      | inl f ↦ rw (keep_if, f) (delete-new hash token_id o rows row others e)
      | inr f ↦ rw (keep_if, f, any, other) (delete-new hash token_id o rows row others e)
    ]

pair-injective :
    {A B : Type 0} (a b : A) (x y : B)
    → ◌≡◌ {A = Result A × B} (ok a, x) (ok b, y)
    → (a ≡ b) × (y ≡ x)
pair-injective a b x y h = (cc (ap (λ r. r.0) h), sym (ap (λ r. r.1) h))

-- What a creation that returns has done.
create_token-eq-ok :
    (env : TokenEnvironment) (o : Owner) (user_email name : String) (days : Option ℕ) (now : ℕ)
    (token_id token : String) (rows after : List TokenRow) (created : CreatedToken)
    → create_token env o user_email name days now token_id token rows ≡ (ok created, after)
    → (created.token ≡ token)
      × (created.token_id ≡ token_id)
      × (after ≡ rows ++ new_row env o created now ∷ [])
unfolding create_token
create_token-eq-ok env o user_email name days now token_id token rows after created h =
    elim (Bool-cases (leb env.max_tokens (active_token_count o user_email now rows))) [
      | inl e ↦ cc (rw e at h)
      | inr e ↦
          elim (Bool-cases (ltb env.max_expiry_days (effective_expiry env.max_expiry_days days))) [
            | inl f ↦ cc (rw (e, f) at h)
            | inr f ↦
                let (same, there) = pair-injective _ created _ after (rw (e, f) at h) in
                (rw (sym same) refl, rw (sym same) refl, rw (sym same) there)
          ]
    ]

-- Whose address a token of an owner stands for: the address that the account has today, or the anchor
-- of the owner where it has no identifier or the account is not found or has no address; a lookup that
-- fails fails the authentication.
pub data StandsFor (env : TokenEnvironment) (o : Owner) : Result String → Type 0 where
  without_id : o.user_id ≡ none → StandsFor env o (ok o.anchor_email)
  empty_id : o.user_id ≡ some "" → StandsFor env o (ok o.anchor_email)
  failing :
      {id : String} {e : ServiceError}
      → o.user_id ≡ some id
      → id ≢ ""
      → env.resolve_account_by_id id ≡ err e
      → StandsFor env o (err e)
  not_found :
      {id : String}
      → o.user_id ≡ some id
      → id ≢ ""
      → env.resolve_account_by_id id ≡ ok none
      → StandsFor env o (ok o.anchor_email)
  without_address :
      {id : String} {account : AccountIdentity}
      → o.user_id ≡ some id
      → id ≢ ""
      → env.resolve_account_by_id id ≡ ok (some account)
      → account.email ≡ ""
      → StandsFor env o (ok o.anchor_email)
  of_today :
      {id : String} {account : AccountIdentity}
      → o.user_id ≡ some id
      → id ≢ ""
      → env.resolve_account_by_id id ≡ ok (some account)
      → account.email ≢ ""
      → StandsFor env o (ok account.email)

module _ (env : TokenEnvironment) (o : Owner) (created : CreatedToken) (now : ℕ) where
  found-StandsFor :
      (id : String) (r : Result (Option AccountIdentity))
      → o.user_id ≡ some id
      → id ≢ ""
      → env.resolve_account_by_id id ≡ r
      → StandsFor env o (address_from o.anchor_email r)
  found-StandsFor id (err e) own named q = failing own named q
  found-StandsFor id (ok none) own named q = not_found own named q
  found-StandsFor id (ok (some account)) own named q = elim (Bool-cases (account.email == "")) [
    | inl e ↦ rw e (without_address own named q ((eq_iff account.email "").0 e))
    | inr e ↦ rw e (of_today own named q (differ account.email "" e))
  ]

  owner-StandsFor :
      (user_id : Option String)
      → o.user_id ≡ user_id
      → StandsFor env o (
          if present user_id
          then address_from o.anchor_email (env.resolve_account_by_id (text_or_empty user_id))
          else ok o.anchor_email)
  owner-StandsFor none own = without_id own
  owner-StandsFor (some id) own = elim (Bool-cases (id == "")) [
    | inl b ↦ rw b (empty_id (own ∙ ap some ((eq_iff id "").0 b)))
    | inr b ↦ rw b (found-StandsFor id (env.resolve_account_by_id id) own (differ id "" b) refl)
  ]

  current_address-StandsFor : StandsFor env o (current_address env (new_row env o created now))
  unfolding current_address
  current_address-StandsFor = owner-StandsFor o.user_id refl

module _ (env : TokenEnvironment) (o : Owner) (user_email name : String) (days : Option ℕ) (now : ℕ)
    (token_id token : String) (rows after : List TokenRow) (created : CreatedToken)
    (returned : create_token env o user_email name days now token_id token rows
      ≡ (ok created, after))
    (fresh : has_hash (env.sha256_hex token) rows ≡ false) where
  active :
      (later : ℕ)
      → created.token ≡ token
      → later < created.expires_at
      → is_active_hash (env.sha256_hex token) later (new_row env o created now) ≡ true
  unfolding is_active_hash
  active later same alive =
      rw (same, eq_refl (env.sha256_hex token)) (lt→ltb later created.expires_at alive)

  -- A token that was created authenticates, until it expires, as the address that its owner's account
  -- has by then, or as the owner's anchor where the owner has no identifier or its account is not
  -- found or has no address; where the lookup of the account fails, with its error; if no row had
  -- its digest.
  pub authenticate_with_pat-create_token :
      (stamps : Bool) (later : ℕ)
      → later < created.expires_at
      → StandsFor env o (authenticate_with_pat env stamps later token after).0
  unfolding authenticate_with_pat
  authenticate_with_pat-create_token stamps later alive =
      let (same, _, there) =
        create_token-eq-ok env o user_email name days now token_id token rows after created
          returned in
      let found =
        get_by_token_hash-new (env.sha256_hex token) later rows (new_row env o created now) fresh
          (active later same alive) in
      rw (there, found) (current_address-StandsFor env o created now)

  owned : created.token_id ≡ token_id → is_owned token_id o (new_row env o created now) ≡ true
  unfolding is_owned
  owned named = rw (named, eq_refl token_id) (owner_clause-own o)

  -- After its owner has deleted it, the token is refused at any time.
  pub authenticate_with_pat-delete :
      (stamps : Bool) (later : ℕ)
      → (authenticate_with_pat env stamps later token (delete token_id o after)).0
        ≡ err invalid_token
  unfolding authenticate_with_pat delete
  authenticate_with_pat-delete stamps later =
      let (_, named, there) =
        create_token-eq-ok env o user_email name days now token_id token rows after created
          returned in
      rw there (
        ap (authenticated env) (
          get_by_token_hash-unknown (env.sha256_hex token) later _ (
            delete-new (env.sha256_hex token) token_id o rows (new_row env o created now) fresh
              (owned named))))
