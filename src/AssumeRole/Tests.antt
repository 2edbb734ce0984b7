-- ===== src/AssumeRole/Tests.antt =====
-- A request for the target of three principals, with and without a grant.
use aws_access_bridge.Base.{
  ℕ, suc, ◌≤◌, ◌<◌, ◌≡◌, ◌≢◌, refl, String, Option, none, some, List, [], ◌∷◌, ◌++◌, All, length,
  any, true, false, arith, differ, ◌==◌, if◌then◌else◌,
}
use aws_access_bridge.Base.Errors.{ServiceError, Result, ok, err}
use aws_access_bridge.Arn.{get_account_id_from_arn, get_role_name_from_arn, strip_prefix}
use aws_access_bridge.Access.{is_for, verify_user_has_access_to_role}
use aws_access_bridge.Owner.{owner_clause}
use aws_access_bridge.Credential.Model.{CredentialCache, AccessKeys}
use aws_access_bridge.Credential.Cache.{get_cached_credential, store_cached_credential, put_cached}
use aws_access_bridge.Credential.Tests.Data.{
  target_arn, middle_arn, base_arn, chain_three, middle_entry, cached_middle, empty_vault, settings,
}
use aws_access_bridge.AssumeRole.{
  Services, Directory, base_keys, find_closest_cached_credential, assume_role_chain, resolve_owner,
  assume_role_for_user, arn_at, find_from, keep_intermediate,
}
use aws_access_bridge.AssumeRole.World.{StsCall, World, services}
use aws_access_bridge.AssumeRole.Closest.{find_closest_cached_credential_lem}
use aws_access_bridge.AssumeRole.Hops.{Hops, assume_role_chain-Hops, assume_role_chain-target}
use aws_access_bridge.AssumeRole.Guarded.{
  assume_role_for_user-granted, assume_role_for_user-refused,
}
use aws_access_bridge.AssumeRole.Sts.{
  StsRequest, StsResponse, assume_role, parse_xml_tag, tag_here, keys_of,
}

-- STS answers each call with keys named after the role.
abbrev answer : ℕ → StsCall → Result AccessKeys
answer n call = ok (record {
  access_key_id = call.role_arn;
  secret_access_key = "secret";
  session_token = some "token";
  expiration = some "2030";
})

abbrev seconds : String → ℕ
seconds s = 4000

abbrev world : World
world = record { vault = empty_vault; calls = []; draws = 0 }

abbrev live : Services World
live = services settings 1000 answer seconds

abbrev arns : List String
arns = target_arn ∷ middle_arn ∷ base_arn ∷ []

abbrev start_keys : AccessKeys
start_keys = base_keys chain_three

abbrev last_keys : AccessKeys
last_keys = record {
  access_key_id = target_arn;
  secret_access_key = "secret";
  session_token = some "token";
  expiration = some "2030";
}

walked : (assume_role_chain live arns 2 start_keys "alice" (some 900) world).0 ≡ ok last_keys
unfolding assume_role_chain keep_intermediate store_cached_credential put_cached
walked = refl

assume_role_chain-Hops_example :
    (calls : List StsCall) × Hops settings 1000 answer seconds arns "alice"
      (some 900)
      0
      2
      start_keys
      calls
      last_keys
    × ((assume_role_chain live arns 2 start_keys "alice" (some 900) world).1.calls ≡ calls)
assume_role_chain-Hops_example =
    assume_role_chain-Hops settings 1000 answer seconds arns "alice" (some 900) 2 start_keys
      last_keys world walked

distinct : (j : ℕ) → 1 ≤ j → j < 2 → target_arn ≢ arn_at arns j
distinct j h k e = let one : j ≡ 1 = omega arith in differ target_arn middle_arn refl (rw one at e)

assume_role_chain-target_example :
    (assume_role_chain live arns 2 start_keys "alice" (some 900) world).1.vault.cache target_arn
    ≡ none
assume_role_chain-target_example =
    assume_role_chain-target settings 1000 answer seconds arns "alice" (some 900) 2 start_keys world
      distinct

-- A cache that holds the middle, and nothing else.
abbrev held : String → Option CredentialCache
held arn = if arn == middle_arn then some middle_entry else none

abbrev with_middle : Services Unit
with_middle = record {
  get_cached = cached_middle;
  store_cached = λ c w. (ok tt, w);
  assume_role = λ arn k session duration w. (ok last_keys, w);
  seconds_of = seconds;
}

find_closest_cached_credential_lem_example :
    ((rest : List String)
      → arns ≡ target_arn ∷ rest
      → All (λ arn. held arn ≡ none) rest
      → (find_closest_cached_credential with_middle chain_three tt).0
        ≡ ok (record {
          roles_left = length rest;
          credentials = record {
            access_key_id = chain_three.access_key_id;
            secret_access_key = chain_three.secret_access_key;
            session_token = none;
            expiration = none;
          };
        }))
    × ((before after : List String) (hit : String) (c : CredentialCache)
        → arns ≡ target_arn ∷ before ++ hit ∷ after
        → All (λ arn. held arn ≡ none) before
        → held hit ≡ some c
        → (find_closest_cached_credential with_middle chain_three tt).0
          ≡ ok (record {
            roles_left = suc (length before);
            credentials = record {
              access_key_id = c.access_key_id;
              secret_access_key = c.secret_access_key;
              session_token = c.session_token;
              expiration = none;
            };
          }))
find_closest_cached_credential_lem_example =
    find_closest_cached_credential_lem with_middle (λ w. Unit) held (λ arn w h. (refl, tt))
      chain_three target_arn tt tt

-- A user whose grant is for the target, and one without an account.
abbrev directory : Directory World
directory = record {
  resolve_account = λ email.
      if email == "alice@example"
      then some (record { id = some "usr_a"; anchor_email = "alice@old.example" })
      else none;
  grants =
      record {
        user_email = "alice@old.example";
        user_id = some "usr_a";
        aws_account_id = "111111111111";
        role_name = "Target";
        hidden = false;
      }
      ∷ [];
  role_duration = λ account role. some 900;
  walk = λ arn w. (ok chain_three, w);
  federation_username = λ anchor w. (ok "alice", w);
}

account_of_target : get_account_id_from_arn target_arn ≡ ok "111111111111"
unfolding get_account_id_from_arn
account_of_target = refl

role_of_target : get_role_name_from_arn target_arn ≡ ok "Target"
unfolding get_role_name_from_arn
role_of_target = refl

alice_served :
    (assume_role_for_user live directory "alice@example" target_arn world).0 ≡ ok last_keys
unfolding assume_role_for_user get_account_id_from_arn get_role_name_from_arn
    verify_user_has_access_to_role is_for owner_clause resolve_owner find_closest_cached_credential
    find_from get_cached_credential assume_role_chain keep_intermediate store_cached_credential
    put_cached
alice_served = refl

assume_role_for_user-granted_example :
    (account : String) × (role : String) × (get_account_id_from_arn target_arn ≡ ok account)
    × (get_role_name_from_arn target_arn ≡ ok role)
    × (any
          (is_for (resolve_owner directory.resolve_account "alice@example") account role)
          directory.grants
        ≡ true)
assume_role_for_user-granted_example =
    assume_role_for_user-granted live directory "alice@example" target_arn world last_keys
      alice_served

-- Only one account and role are named by the ARN of the target.
eve_without :
    (account role : String)
    → get_account_id_from_arn target_arn ≡ ok account
    → get_role_name_from_arn target_arn ≡ ok role
    → any
        (is_for (resolve_owner directory.resolve_account "eve@example") account role)
        directory.grants
      ≡ false
unfolding is_for owner_clause resolve_owner
eve_without account role f g = refl

assume_role_for_user-refused_example :
    (e : ServiceError) × (assume_role_for_user live directory "eve@example" target_arn world
      ≡ (err e, world))
assume_role_for_user-refused_example =
    assume_role_for_user-refused live directory "eve@example" target_arn world eve_without

abbrev respond : StsRequest → Result StsResponse
respond q = ok (record {
  success = true;
  status = 200;
  body =
      "<AccessKeyId>A</AccessKeyId><SecretAccessKey>B</SecretAccessKey><SessionToken>T</SessionToken><Expiration>2030</Expiration>";
})

answered :
    assume_role respond target_arn start_keys "alice" none
    ≡ ok (record {
      access_key_id = "A";
      secret_access_key = "B";
      session_token = some "T";
      expiration = some "2030";
    })
unfolding assume_role parse_xml_tag tag_here keys_of strip_prefix
answered = refl
