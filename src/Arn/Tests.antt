-- ===== src/Arn/Tests.antt =====
-- ARNs taken apart.
use aws_access_bridge.Base.{◌≡◌, refl, true, false, arith}
use aws_access_bridge.Arn.{is_principal_arn}
use aws_access_bridge.Arn.Laws.{NoColon}

role_is_principal : is_principal_arn "arn:aws:iam::123456789012:role/team/Admin" ≡ true
unfolding is_principal_arn
role_is_principal = refl

group_is_no_principal : is_principal_arn "arn:aws:iam::123456789012:group/Admin" ≡ false
unfolding is_principal_arn
group_is_no_principal = refl

no_colon : NoColon "team/Admin"
no_colon = ground arith
