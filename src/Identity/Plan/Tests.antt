-- ===== src/Identity/Plan/Tests.antt =====
-- A change from an old address.
use aws_access_bridge.Base.{
  String, none, some, [], ◌∷◌, true, ◌==◌, ◌≡◌, ◌↔◌, refl, All, if◌then◌else◌,
}
use aws_access_bridge.Identity.Address.{lower}
use aws_access_bridge.Identity.Rows.{UserEmail, Registry}
use aws_access_bridge.Identity.Plan.{
  sql_email, is_plain_address, all_in, sql_token, is_taken_by_another_account,
  change_email_statements, states, execute_all,
}
use aws_access_bridge.Identity.Plan.Window.{IsLogin, change_email_statements-IsLogin}

abbrev login_of : String → UserEmail
login_of account_id = record { user_id = account_id; is_verified = true; created_at = 1 }

abbrev one_account : Registry
one_account = record {
  users =
      record {
        user_email = "old@x.org";
        id = some "u1";
        current_email = some "old@x.org";
        federation_username = none;
      }
      ∷ [];
  emails = λ email. if email == "old@x.org" then some (login_of "u1") else none;
  users_fault = none;
  emails_fault = none;
}

change_email_statements-IsLogin_example :
    All (IsLogin "u1" "new@x.org") (states (change_email_statements "new@x.org" "u1" 9) one_account)
    × (IsLogin "u1" "old@x.org"
          (execute_all (change_email_statements "new@x.org" "u1" 9) one_account)
        ↔ (◌≡◌ {A = String} "old@x.org" "new@x.org"))
change_email_statements-IsLogin_example =
    change_email_statements-IsLogin "new@x.org" "u1" 9 one_account "old@x.org"

lowered : sql_email "New.Name+a@X.org" ≡ some "new.name+a@x.org"
unfolding sql_email is_plain_address all_in lower
lowered = refl

quote_refused : sql_email "a'b@x.org" ≡ none
unfolding sql_email is_plain_address all_in
quote_refused = refl

space_refused : sql_token "u 1" ≡ none
unfolding sql_token all_in
space_refused = refl

taken :
    is_taken_by_another_account (some (record { user_id = "u2"; is_verified = true })) "u1" ≡ true
unfolding is_taken_by_another_account
taken = refl
