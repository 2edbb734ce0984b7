-- ===== src/Onboarding/Batches.antt =====
-- apps/web/src/lib/onboardingBatches.ts, and the step of the wizard that waits for one of them:
-- hooks/onboarding/useRolesStep.ts and hooks/useOnboardingWizard.ts.
use aws_access_bridge.Base.{
  ℕ, suc, ◌+◌, ◌*◌, ◌≡◌, refl, sym, ap, ◌∙◌, String, List, [], ◌∷◌, ◌++◌, map, Option, none, some,
  Bool, true, not, ◌==◌, keep_if, keep_if-take, keep_if-skip, length, nat_eq, is_set, arith,
  Bool-cases, inl, inr, if◌then◌else◌,
}
use mathlib.Core.List.{append-nil, append_assoc}
use aws_access_bridge.Identity.Address.{trim}
use aws_access_bridge.Onboarding.{DiscoveredRole, WizardStep, users_step, valid_emails}

-- An action says whether its promise resolves; a rejection stops nothing.
unfoldable pub settle_all : {A W : Type 0} → (A → W → Bool × W) → List A → W → ℕ × W
settle_all action [] w = (0, w)
settle_all action (x ∷ xs) w =
    let (is_done, next) = action x w in
    let (failures, last) = settle_all action xs next in
    (if is_done then failures else failures + 1, last)

-- `discoveredRoles.find(...)`
abbrev role_named : String → List DiscoveredRole → Option DiscoveredRole
role_named name [] = none
role_named name (r ∷ rs) =
    let rest = role_named name rs in if r.role_name == name then some r else rest

abbrev with_role : Option DiscoveredRole → List String → List String
with_role none arns = arns
with_role (some r) arns = if is_set r.arn then r.arn ∷ arns else arns

-- The ARNs of the selected roles that have one.
unfoldable pub with_arn : List String → List DiscoveredRole → List String
with_arn [] discovered = []
with_arn (name ∷ names) discovered =
    with_role (role_named name discovered) (with_arn names discovered)

pub record Saved : Type 0 where
  pub ok : Bool
  pub attempted : ℕ
  pub failures : ℕ

-- The write is `storeCredentialRelationship(role.arn, assumedByArn)`.
unfoldable pub save_role_relationships :
    {W : Type 0}
    → (String → String → W → Bool × W)
    → List String
    → List DiscoveredRole
    → String
    → W
    → Saved × W
save_role_relationships write selected discovered assumed_by_arn w =
    let arns = with_arn selected discovered in
    let (failures, last) = settle_all (λ arn. write arn assumed_by_arn) arns w in
    (record { ok = nat_eq failures 0; attempted = length arns; failures = failures }, last)

-- Whether the wizard may go on, which is what the promise resolves to.
unfoldable pub handle_save_role_relationships :
    {W : Type 0}
    → (String → String → W → Bool × W)
    → List String
    → List DiscoveredRole
    → String
    → W
    → Bool × W
handle_save_role_relationships write [] discovered assumed_by_arn w = (true, w)
handle_save_role_relationships write (name ∷ names) discovered assumed_by_arn w =
    let (saved, last) = save_role_relationships write (name ∷ names) discovered assumed_by_arn w in
    if not (is_set assumed_by_arn) then (true, w) else (saved.ok, last)

unfoldable pub handle_roles_next :
    {W : Type 0}
    → (String → String → W → Bool × W)
    → List String
    → List DiscoveredRole
    → String
    → WizardStep
    → W
    → WizardStep × W
handle_roles_next write selected discovered assumed_by_arn step w =
    let (may_go_on, last) =
      handle_save_role_relationships write selected discovered assumed_by_arn w in
    (if may_go_on then users_step else step, last)

abbrev for_email : String → List String → List (String × String) → List (String × String)
for_email email roles rest = map (λ role. (email, role)) roles ++ rest

unfoldable pub grant_pairs : List String → List String → List (String × String)
grant_pairs [] roles = []
grant_pairs (email ∷ emails) roles =
    let rest = grant_pairs emails roles in
    if is_set (trim email) then for_email (trim email) roles rest else rest

pub record Granted : Type 0 where
  pub attempted : ℕ
  pub failures : ℕ

-- The write is `grantAccess(pair.email, awsAccountId, pair.role)`.
unfoldable pub grant_selected_roles :
    {W : Type 0}
    → (String → String → String → W → Bool × W)
    → List String
    → List String
    → String
    → W
    → Granted × W
grant_selected_roles write emails roles aws_account_id w =
    let pairs = grant_pairs emails roles in
    let (failures, last) = settle_all (λ pair. write pair.0 aws_account_id pair.1) pairs w in
    (record { attempted = length pairs; failures = failures }, last)

-- A server that keeps the calls, and refuses some of them.
abbrev pub logging : {A : Type 0} → (A → Bool) → A → List A → Bool × List A
logging accepts x calls = (accepts x, calls ++ x ∷ [])

add_one : (n : ℕ) → n + 1 ≡ suc n
add_one n = omega arith

settle_all-logging :
    {A : Type 0} (accepts : A → Bool) (xs calls : List A)
    → ◌≡◌ {A = ℕ × List A}
        (settle_all (logging accepts) xs calls)
        (length (keep_if (λ x. not (accepts x)) xs), calls ++ xs)
unfolding settle_all
settle_all-logging accepts [] calls = ap (λ l. (0, l)) (sym (append-nil calls))
settle_all-logging {A = A} accepts (x ∷ xs) calls =
    let later = settle_all-logging accepts xs (calls ++ x ∷ []) in
    let refused = λ (y : A). not (accepts y) in
    elim (Bool-cases (accepts x)) [
      | inl e ↦
          let skipped = keep_if-skip refused x xs (ap not e) in
          rw (e, later, append_assoc calls (x ∷ []) xs)
            (ap (λ l. (length l, calls ++ x ∷ xs)) (sym skipped))
      | inr e ↦
          let taken = keep_if-take refused x xs (ap not e) in
          rw (e, later, append_assoc calls (x ∷ []) xs, add_one (length (keep_if refused xs)))
            (ap (λ l. (length l, calls ++ x ∷ xs)) (sym taken))
    ]

length-for_email :
    (email : String) (roles : List String) (rest : List (String × String))
    → length (for_email email roles rest) ≡ length roles + length rest
length-for_email email [] rest = omega arith
length-for_email email (role ∷ roles) rest = omega (arith, length-for_email email roles rest)

one_more_row : (m n : ℕ) → n + m * n ≡ suc m * n
one_more_row m n = ground arith

length-grant_pairs :
    (emails roles : List String)
    → length (grant_pairs emails roles) ≡ length (valid_emails emails) * length roles
unfolding grant_pairs valid_emails
length-grant_pairs [] roles = omega arith
length-grant_pairs (email ∷ emails) roles =
    let later = length-grant_pairs emails roles in
    let rows = λ (l : List String). length l * length roles in
    elim (Bool-cases (is_set (trim email))) [
      | inl e ↦
          rw (e, length-for_email (trim email) roles (grant_pairs emails roles), later)
            (one_more_row (length (valid_emails emails)) (length roles)
              ∙ ap rows (sym (keep_if-take is_set (trim email) (map trim emails) e)))
      | inr e ↦ rw e (later ∙ ap rows (sym (keep_if-skip is_set (trim email) (map trim emails) e)))
    ]

-- Every address that is not blank is granted every role, by one call for each pair, in order, whatever
-- the server answers to the others; the number of attempts is the product of both, and the number of
-- failures that of the calls that are refused.
pub grant_selected_roles_lem :
    (accepts : String → String × String → Bool) (emails roles : List String)
    (aws_account_id : String) (calls : List (String × String))
    → ◌≡◌ {A = Granted × List (String × String)}
        (grant_selected_roles
          (λ email account role. logging (accepts account) (email, role))
          emails
          roles
          aws_account_id
          calls)
        (
          record {
            attempted = length (valid_emails emails) * length roles;
            failures =
                length (keep_if (λ p. not (accepts aws_account_id p)) (grant_pairs emails roles));
          },
          calls ++ grant_pairs emails roles,
        )
unfolding grant_selected_roles
grant_selected_roles_lem accepts emails roles aws_account_id calls =
    rw
      (
        settle_all-logging (accepts aws_account_id) (grant_pairs emails roles) calls,
        length-grant_pairs emails roles,
      )
      refl
