-- ===== src/AssumeRole.antt =====
-- packages/backend-services/src/aws/assume-role/AssumeRoleService.ts, with `resolveOwner` of
-- packages/backend-services/src/identity/resolveOwner.ts.
pub mod Sts
pub mod World
pub mod Closest
pub mod Hops
pub mod Guarded
mod Tests
use Prim.Native.String
use aws_access_bridge.Base.{
  ℕ, zero, suc, ◌+◌, ◌-◌, String, Option, none, some, List, [], ◌∷◌, Bool, not, ◌&&◌, leb, nat_eq,
  length, get_elem?, is_set, present, text_or_empty, if◌then◌else◌,
}
use aws_access_bridge.Base.Errors.{Result, bad_request}
use aws_access_bridge.Base.Exec.{Exec, pure, lift, throw_if, ◌>>=◌, ◌>>◌}
use aws_access_bridge.Arn.{get_account_id_from_arn, get_role_name_from_arn}
use aws_access_bridge.Owner.{Owner}
use aws_access_bridge.Access.{Grant, verify_user_has_access_to_role}
use aws_access_bridge.Credential.Model.{CredentialChain, CredentialCache, AccessKeys}
use aws_access_bridge.Credential.Store.{missing_fields}

-- What `assumeRoleChain` uses: the DAO of the cache, the STS client, and `seconds_of` for
-- `TimestampUtil.convertIsoToUnixTimestampInSeconds`.
pub record Services (S : Type 0) : Type 0 where
  pub get_cached : String → Exec S (Option CredentialCache)
  pub store_cached : CredentialCache → Exec S Unit
  pub assume_role : String → AccessKeys → String → Option ℕ → Exec S AccessKeys
  pub seconds_of : String → ℕ

-- `{ startIndex, credentials }`, with `startIndex + 1`, the number of roles left to assume.
pub record Start : Type 0 where
  pub roles_left : ℕ
  pub credentials : AccessKeys

abbrev pub base_keys : CredentialChain → AccessKeys
base_keys chain = record {
  access_key_id = chain.access_key_id;
  secret_access_key = chain.secret_access_key;
  session_token = none;
  expiration = none;
}

abbrev pub entry_keys : CredentialCache → AccessKeys
entry_keys c = record {
  access_key_id = c.access_key_id;
  secret_access_key = c.secret_access_key;
  session_token = c.session_token;
  expiration = none;
}

abbrev intermediate_session : String
intermediate_session = "AccessBridge-Intermediate"

abbrev session_prefix : String
session_prefix = "AccessBridge-"

-- `principalArns[i]`, and what the request holds where there is none.
abbrev pub arn_at : List String → ℕ → String
arn_at arns i = elim (get_elem? arns i) [ none ↦ "undefined" | some arn ↦ arn ]

unfoldable pub session_at : ℕ → String → String
session_at zero user_id = String.◌++◌ session_prefix user_id
session_at (suc i) user_id = intermediate_session

unfoldable pub duration_at : ℕ → Option ℕ → Option ℕ
duration_at zero duration = duration
duration_at (suc i) duration = none

module _ {S : Type 0} (sv : Services S) where
  -- The loop from index `i` on, over the principals that are left.
  unfoldable pub find_from : ℕ → List String → Start → Exec S Start
  find_from i [] start w = pure start w
  find_from i (arn ∷ arns) start w =
      (sv.get_cached arn >>= λ hit. elim hit [
        | none ↦ find_from (i + 1) arns start
        | some c ↦ pure (record { roles_left = i; credentials = entry_keys c })
      ])
        w

  abbrev tail_of : List String → List String
  tail_of [] = []
  tail_of (arn ∷ arns) = arns

  unfoldable pub find_closest_cached_credential : CredentialChain → Exec S Start
  find_closest_cached_credential chain =
      find_from 1 (tail_of chain.principal_arns)
        (record { roles_left = length chain.principal_arns - 1; credentials = base_keys chain })

  -- The write to the cache after a hop.
  unfoldable pub keep_intermediate : ℕ → String → AccessKeys → Exec S Unit
  keep_intermediate i role_arn k =
      if leb 1 i && present k.expiration && present k.session_token
      then sv.store_cached (record {
        principal_arn = role_arn;
        access_key_id = k.access_key_id;
        secret_access_key = k.secret_access_key;
        session_token = k.session_token;
        expires_at = sv.seconds_of (text_or_empty k.expiration);
      })
      else pure tt

  -- `roles_left` counts down with `i`.
  unfoldable pub assume_role_chain :
      List String → ℕ → AccessKeys → String → Option ℕ → Exec S AccessKeys
  assume_role_chain arns zero credentials user_id duration = pure credentials
  assume_role_chain arns (suc i) credentials user_id duration =
      sv.assume_role (arn_at arns i) credentials (session_at i user_id) (duration_at i duration)
      >>= λ new_credentials. keep_intermediate i (arn_at arns i) new_credentials >>= λ done.
          assume_role_chain arns i new_credentials user_id duration

-- The account behind an address.
pub record Account : Type 0 where
  pub id : Option String
  pub anchor_email : String

-- An unknown address is an owner without an id; `idOf` reads an empty id as none.
unfoldable pub resolve_owner : (String → Option Account) → String → Owner
resolve_owner resolve_account user_email = elim (resolve_account user_email) [
  | none ↦ record { user_id = none; anchor_email = user_email }
  | some a ↦ record { user_id = if present a.id then a.id else none; anchor_email = a.anchor_email }
]

-- What `assumeRoleForUser` uses besides: the account behind an address, the configured duration of a
-- role's sessions, the walk over the chain, and the account's session name.
pub record Directory (S : Type 0) : Type 0 where
  pub resolve_account : String → Option Account
  pub grants : List Grant
  pub role_duration : String → String → Option ℕ
  pub walk : String → Exec S CredentialChain
  pub federation_username : String → Exec S String

module _ {S : Type 0} (sv : Services S) (d : Directory S) where
  abbrev after_access : String → Owner → String → String → Exec S AccessKeys
  after_access principal_arn owner account role = d.walk principal_arn >>= λ chain.
      d.federation_username owner.anchor_email >>= λ session_name.
      find_closest_cached_credential sv chain >>= λ start.
      assume_role_chain sv chain.principal_arns start.roles_left start.credentials session_name
        (d.role_duration account role)

  unfoldable pub assume_role_for_user : String → String → Exec S AccessKeys
  assume_role_for_user user_email principal_arn =
      throw_if (not (is_set principal_arn)) (bad_request missing_fields) >>= λ set.
      lift (get_account_id_from_arn principal_arn) >>= λ account.
      lift (get_role_name_from_arn principal_arn) >>= λ role.
      let owner = resolve_owner d.resolve_account user_email in
      lift (verify_user_has_access_to_role owner account role d.grants) >>= λ granted.
      after_access principal_arn owner account role
