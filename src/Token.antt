-- ===== src/Token.antt =====
-- Personal access tokens: packages/backend-services/src/auth/TokenService.ts and
-- packages/backend-data/src/dao/UserAccessTokenDAO.ts. The table is the list of its rows. The digest, the
-- calendar and the lookup of an account by its identifier are parameters.
pub mod Laws
mod Tests
use aws_access_bridge.Base.{
  ℕ, suc, String, Option, none, some, List, [], ◌∷◌, ◌++◌, map, Bool, true, false, not, ◌&&◌, ◌==◌,
  keep_if, ltb, leb, is_set, present, text_or_empty, if◌then◌else◌,
}
use aws_access_bridge.Base.Errors.{ServiceError, Result, ok, err, ◌>>=◌, bad_request, unauthorized}
use aws_access_bridge.Owner.{Owner, owner_clause}
use aws_access_bridge.Identity.Resolver.{AccountIdentity}

-- A row of `user_access_tokens`.
pub record TokenRow : Type 0 where
  pub token_id : String
  pub user_email : String
  pub user_id : Option String
  pub token_hash : String
  pub name : String
  pub created_at : ℕ
  pub expires_at : ℕ
  pub last_used_at : Option ℕ

-- `token_hash = ? AND expires_at > ?`
unfoldable pub is_active_hash : String → ℕ → TokenRow → Bool
is_active_hash hash now row = row.token_hash == hash && ltb now row.expires_at

unfoldable pub get_by_token_hash : String → ℕ → List TokenRow → Option TokenRow
unfolding is_active_hash
get_by_token_hash hash now [] = none
get_by_token_hash hash now (row ∷ rows) =
    let rest = get_by_token_hash hash now rows in
    if is_active_hash hash now row then some row else rest

unfoldable pub update_last_used_by_token_hash : String → ℕ → List TokenRow → List TokenRow
update_last_used_by_token_hash hash now =
    map (λ row. if row.token_hash == hash then record row { last_used_at = some now } else row)

abbrev count_if : (TokenRow → Bool) → List TokenRow → ℕ
count_if p [] = 0
count_if p (row ∷ rows) = let rest = count_if p rows in if p row then suc rest else rest

unfoldable pub count_active_by_user_id : Owner → ℕ → List TokenRow → ℕ
count_active_by_user_id o now =
    count_if (λ row. owner_clause o row.user_id row.user_email && ltb now row.expires_at)

unfoldable pub count_active_by_user_email : String → ℕ → List TokenRow → ℕ
count_active_by_user_email user_email now =
    count_if (λ row. row.user_email == user_email && ltb now row.expires_at)

-- The statement on the rows of a token that are its owner's.
unfoldable pub is_owned : String → Owner → TokenRow → Bool
is_owned token_id o row = row.token_id == token_id && owner_clause o row.user_id row.user_email

unfoldable pub delete : String → Owner → List TokenRow → List TokenRow
unfolding is_owned
delete token_id o rows = keep_if (λ row. not (is_owned token_id o row)) rows

pub record TokenEnvironment : Type 0 where
  pub sha256_hex : String → String
  pub add_days : ℕ → ℕ → ℕ
  pub resolve_account_by_id : String → Result (Option AccountIdentity)
  pub max_tokens : ℕ
  pub max_expiry_days : ℕ

abbrev pub invalid_token : ServiceError
invalid_token =
    unauthorized
      "Your access could not be authorized because your personal access token is invalid or has expired."

-- The current address of the account, where it has one.
abbrev pub address_or : String → Option AccountIdentity → String
address_or stored none = stored
address_or stored (some account) = if is_set account.email then account.email else stored

abbrev pub address_from : String → Result (Option AccountIdentity) → Result String
address_from stored looked_up = looked_up >>= λ account. ok (address_or stored account)

unfoldable pub current_address : TokenEnvironment → TokenRow → Result String
current_address env row =
    if present row.user_id
    then address_from row.user_email (env.resolve_account_by_id (text_or_empty row.user_id))
    else ok row.user_email

abbrev pub authenticated : TokenEnvironment → Option TokenRow → Result String
authenticated env none = err invalid_token
authenticated env (some row) = current_address env row

-- The stamp is deferred, or its failure is swallowed: `stamps` says whether it is made.
abbrev pub stamped : Bool → String → ℕ → Option TokenRow → List TokenRow → List TokenRow
stamped stamps hash now none rows = rows
stamped stamps hash now (some row) rows =
    if stamps then update_last_used_by_token_hash hash now rows else rows

unfoldable pub authenticate_with_pat :
    TokenEnvironment → Bool → ℕ → String → List TokenRow → Result String × List TokenRow
authenticate_with_pat env stamps now token rows =
    let found = get_by_token_hash (env.sha256_hex token) now rows in
    (authenticated env found, stamped stamps (env.sha256_hex token) now found rows)

-- `expiresInDays || maxExpiryInDays`
abbrev pub effective_expiry : ℕ → Option ℕ → ℕ
effective_expiry max none = max
effective_expiry max (some days) = if ltb 0 days then days else max

unfoldable pub active_token_count : Owner → String → ℕ → List TokenRow → ℕ
active_token_count o user_email now rows =
    if present o.user_id
    then count_active_by_user_id o now rows
    else count_active_by_user_email user_email now rows

pub record CreatedToken : Type 0 where
  pub token_id : String
  pub token : String
  pub name : String
  pub expires_at : ℕ

abbrev pub new_row : TokenEnvironment → Owner → CreatedToken → ℕ → TokenRow
new_row env o created now = record {
  token_id = created.token_id;
  user_email = o.anchor_email;
  user_id = o.user_id;
  token_hash = env.sha256_hex created.token;
  name = created.name;
  created_at = now;
  expires_at = created.expires_at;
  last_used_at = none;
}

-- `token_id` and `token` are what is drawn.
unfoldable pub create_token :
    TokenEnvironment
    → Owner
    → String
    → String
    → Option ℕ
    → ℕ
    → String
    → String
    → List TokenRow
    → Result CreatedToken × List TokenRow
create_token env o user_email name expires_in_days now token_id token rows =
    let days = effective_expiry env.max_expiry_days expires_in_days in
    let created : CreatedToken = record {
      token_id = token_id;
      token = token;
      name = name;
      expires_at = env.add_days now days;
    } in
    if leb env.max_tokens (active_token_count o user_email now rows)
    then (err (bad_request "Maximum tokens allowed per user"), rows)
    else if ltb env.max_expiry_days days
    then (err (bad_request "Token expiry cannot exceed the maximum"), rows)
    else (ok created, rows ++ new_row env o created now ∷ [])
