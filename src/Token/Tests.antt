-- ===== src/Token/Tests.antt =====
-- A token of an account that has changed its address.
use aws_access_bridge.Base.{true, ◌≡◌, refl, some, [], ◌∷◌, arith, ◌+◌}
use aws_access_bridge.Base.Errors.{ok}
use aws_access_bridge.Owner.{Owner}
use aws_access_bridge.Token.{
  TokenEnvironment, CreatedToken, new_row, create_token, active_token_count,
  count_active_by_user_id, authenticate_with_pat, current_address,
}
use aws_access_bridge.Token.Laws.{StandsFor, authenticate_with_pat-create_token}

abbrev environment : TokenEnvironment
environment = record {
  sha256_hex = λ token. token;
  add_days = λ now days. now + days;
  resolve_account_by_id =
      λ id. ok (some (record { id = id; email = "ann@b.io"; anchor_email = "ann@a.io" }));
  max_tokens = 2;
  max_expiry_days = 90;
}

abbrev ann : Owner
ann = record { user_id = some "u1"; anchor_email = "ann@a.io" }

abbrev created : CreatedToken
created = record { token_id = "t1"; token = "secret"; name = "ci"; expires_at = 37 }

authenticate_with_pat-create_token_example :
    StandsFor environment ann
      (authenticate_with_pat environment true 36 "secret"
        (new_row environment ann created 7 ∷ [])).0
unfolding create_token active_token_count count_active_by_user_id
authenticate_with_pat-create_token_example =
    authenticate_with_pat-create_token environment ann "ann@b.io" "ci" (some 30) 7 "t1" "secret" []
      (new_row environment ann created 7 ∷ []) created refl refl true 36 (omega arith)

-- It is the address of today.
address_of_today : current_address environment (new_row environment ann created 7) ≡ ok "ann@b.io"
unfolding current_address
address_of_today = refl
