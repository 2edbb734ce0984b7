-- ===== src/Credential/Tests/Walks.antt =====
-- The two walks on three principals and on a cycle.
use aws_access_bridge.Base.{
  String, ◌≡◌, ◌≢◌, ◌↔◌, refl, none, some, Bool-cases, inl, inr, arith, ◌==◌,
}
use aws_access_bridge.Base.Errors.{ok, err, out_of_fuel}
use aws_access_bridge.Credential.Model.{Credential}
use aws_access_bridge.Credential.Chain.Cold.{get_credential_chain, cold_loop, cold_end}
use aws_access_bridge.Credential.Chain.Warm.{get_chain_to_first_cached}
use aws_access_bridge.Credential.Chain.Depth.{
  IsResolved, IsBaseless, get_credential_chain_iff, get_credential_chain-fuel,
}
use aws_access_bridge.Credential.Chain.Agreement.{get_chain_to_first_cached-miss}
use aws_access_bridge.Credential.Chain.Cut.{Serves, get_chain_to_first_cached-Serves}
use aws_access_bridge.Credential.Tests.Data.{
  target_arn, row_at, read_three, other_role, read_cycle, chain_three, cached_middle,
  cached_nothing,
}

cold_three : get_credential_chain 3 read_three target_arn ≡ ok chain_three
unfolding get_credential_chain cold_loop cold_end
cold_three = refl

get_credential_chain_iff_example :
    (get_credential_chain 3 read_three target_arn ≡ ok chain_three)
    ↔ IsResolved 3 read_three target_arn chain_three
get_credential_chain_iff_example =
    get_credential_chain_iff 3 read_three target_arn chain_three (omega arith)

cycle_baseless : IsBaseless 3 read_cycle (λ arn. Unit)
cycle_baseless = record {
  row = λ arn h. row_at arn (some (other_role arn)) none;
  reads = λ arn h. refl;
  more = λ arn h. elim (Bool-cases (arn == target_arn)) [ inl e ↦ rw e refl | inr e ↦ rw e refl ];
  stays = λ arn h. tt;
}

read_three_fuel : (arn : String) → read_three arn ≢ err out_of_fuel
read_three_fuel arn e = cc

get_credential_chain-fuel_example : get_credential_chain 3 read_three target_arn ≢ err out_of_fuel
get_credential_chain-fuel_example =
    get_credential_chain-fuel 3 read_three target_arn read_three_fuel

three_IsKeyed : (arn : String) (c : Credential) → read_three arn ≡ ok c → c.principal_arn ≡ arn
three_IsKeyed arn c e = cc

get_chain_to_first_cached-miss_example :
    (get_chain_to_first_cached 3 read_three cached_nothing target_arn tt).0
    ≡ get_credential_chain 3 read_three target_arn
get_chain_to_first_cached-miss_example =
    get_chain_to_first_cached-miss 3 read_three cached_nothing target_arn tt (λ arn kv. refl)
      three_IsKeyed

get_chain_to_first_cached-Serves_example :
    Serves 3 read_three cached_middle
      (get_chain_to_first_cached 3 read_three cached_middle target_arn tt).0
      chain_three
get_chain_to_first_cached-Serves_example =
    get_chain_to_first_cached-Serves 3 read_three cached_middle (λ arn kv. (_, refl)) three_IsKeyed
      target_arn chain_three tt (omega arith) cold_three
