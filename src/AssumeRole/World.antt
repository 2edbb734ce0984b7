-- ===== src/AssumeRole/World.antt =====
-- The services over the store of the credential code and a record of the calls to STS.
use aws_access_bridge.Base.{ℕ, ◌+◌, String, Option, List, [], ◌∷◌, ◌++◌, length}
use aws_access_bridge.Base.Errors.{Result}
use aws_access_bridge.Base.Exec.{Exec}
use aws_access_bridge.Credential.Model.{CredentialCache, AccessKeys}
use aws_access_bridge.Credential.Vault.{Vault, Settings}
use aws_access_bridge.Credential.Cache.{get_cached_credential, store_cached_credential}
use aws_access_bridge.AssumeRole.{Services}

-- A call of `StsClient.assumeRole`.
pub record StsCall : Type 0 where
  pub role_arn : String
  pub keys : AccessKeys
  pub session_name : String
  pub duration : Option ℕ

pub record World : Type 0 where
  pub vault : Vault
  pub calls : List StsCall
  -- how much of the randomness the encryptions have drawn
  pub draws : ℕ

-- `now` is the time of the reads of the cache; `answer` is what STS answers, which may differ from
-- call to call.
module _ (s : Settings) (now : ℕ) (answer : ℕ → StsCall → Result AccessKeys)
    (seconds : String → ℕ) where
  abbrev pub get_cached : String → Exec World (Option CredentialCache)
  get_cached arn w =
      let (r, v) = get_cached_credential s now arn w.vault in (r, record w { vault = v })

  abbrev pub store_cached : CredentialCache → Exec World Unit
  store_cached c w =
      let (r, v) = store_cached_credential s w.draws c w.vault in
      (r, record w { vault = v; draws = w.draws + 3 })

  abbrev pub assume_role : String → AccessKeys → String → Option ℕ → Exec World AccessKeys
  assume_role arn keys session duration w =
      let call : StsCall = record {
        role_arn = arn;
        keys = keys;
        session_name = session;
        duration = duration;
      } in
      (answer (length w.calls) call, record w { calls = w.calls ++ call ∷ [] })

  abbrev pub services : Services World
  services = record {
    get_cached = get_cached;
    store_cached = store_cached;
    assume_role = assume_role;
    seconds_of = seconds;
  }
