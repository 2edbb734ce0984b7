-- ===== src/Arn/Laws.antt =====
-- Building an ARN and taking it apart.
use Prim.Native.Char.{code}
use Prim.Native.String
use Prim.Native.String.{[], ◌∷◌}
use text.Mathlib.TextLemmas.{nil-append, cons-append}
use aws_access_bridge.Base.{
  is_set-cons, ℕ, zero, suc, String, ◌≡◌, sym, ◌≢◌, refl, Option, ap, ◌∙◌, none, some, List, [],
  ◌∷◌, true, arith, eq_iff, is_set,
}
use aws_access_bridge.Base.Errors.{ok}
use aws_access_bridge.Arn.{
  split_colon, strip_prefix, strip_digits, is_aws_account_id, is_end, build_principal_arn,
  get_account_id_from_arn, get_role_name_from_arn,
}

-- No character of the text is a colon.
abbrev pub NoColon : String → Type 0
NoColon [] = Unit
NoColon (c ∷ s) = (code c ≢ b':') × NoColon s

split_colon-NoColon : (s : String) → NoColon s → split_colon s ≡ s ∷ []
unfolding split_colon
split_colon-NoColon [] h = refl
split_colon-NoColon (c ∷ s) (p, h) = ground (arith, split_colon-NoColon s h)

-- Up to the first colon.
split_colon-append :
    (s t : String) → NoColon s → split_colon (String.◌++◌ s (String.◌++◌ ":" t)) ≡ s ∷ split_colon t
unfolding split_colon
split_colon-append [] t h = rw (nil-append, cons-append, nil-append) refl
split_colon-append (c ∷ s) t (p, h) = rw cons-append (ground (arith, split_colon-append s t h))

split_colon-arn :
    (x : String)
    → split_colon (String.◌++◌ "arn:aws:iam::" x) ≡ "arn" ∷ "aws" ∷ "iam" ∷ "" ∷ split_colon x
unfolding split_colon
split_colon-arn x =
    rw
      (
        cons-append, cons-append, cons-append, cons-append, cons-append, cons-append, cons-append,
        cons-append, cons-append, cons-append, cons-append, cons-append, cons-append, nil-append,
      )
      refl

NoColon-role : (r : String) → NoColon r → NoColon (String.◌++◌ "role/" r)
NoColon-role r h =
    rw (cons-append, cons-append, cons-append, cons-append, cons-append, nil-append)
      (omega arith, (omega arith, (omega arith, (omega arith, (omega arith, h)))))

strip_digits-NoColon : (n : ℕ) (s : String) → strip_digits n s ≡ some "" → NoColon s
unfolding strip_digits
strip_digits-NoColon zero [] e = tt
strip_digits-NoColon zero (c ∷ s) e = cc
strip_digits-NoColon (suc n) [] e = tt
strip_digits-NoColon (suc n) (c ∷ s) e = ground (arith, strip_digits-NoColon n s)

is_end-eq : (o : Option String) → is_end o ≡ true → o ≡ some ""
is_end-eq none h = cc
is_end-eq (some s) h = ground (arith, eq_iff s "")

pub is_aws_account_id-digits :
    (a : String) → is_aws_account_id a ≡ true → (strip_digits 12 a ≡ some "") × (is_set a ≡ true)
unfolding is_aws_account_id
is_aws_account_id-digits [] h = cc
is_aws_account_id-digits (c ∷ a) h = (is_end-eq (strip_digits 12 (c ∷ a)) h, is_set-cons c a)

split_colon-build :
    (a r : String)
    → NoColon a
    → NoColon r
    → split_colon (build_principal_arn a r)
      ≡ "arn" ∷ "aws" ∷ "iam" ∷ "" ∷ a ∷ String.◌++◌ "role/" r ∷ []
unfolding build_principal_arn
split_colon-build a r h k =
    split_colon-arn (String.◌++◌ a (String.◌++◌ ":role/" r))
    ∙ ap (λ (parts : List String). "arn" ∷ "aws" ∷ "iam" ∷ "" ∷ parts)
        (ap (λ (t : String). split_colon (String.◌++◌ a t))
            (cons-append ":" "role/" r
              ∙ sym (
                  cons-append ":" "" (String.◌++◌ "role/" r)
                  ∙ ap (λ (t : String). ":" ∷ t) (nil-append (String.◌++◌ "role/" r))))
          ∙ split_colon-append a (String.◌++◌ "role/" r) h
          ∙ ap (λ (parts : List String). a ∷ parts)
              (split_colon-NoColon (String.◌++◌ "role/" r) (NoColon-role r k)))

strip_role : (r : String) → strip_prefix "role/" (String.◌++◌ "role/" r) ≡ some r
unfolding strip_prefix
strip_role r = rw (cons-append, cons-append, cons-append, cons-append, cons-append, nil-append) refl

-- A role's ARN built from an account id of twelve digits and a role name that is not empty and has
-- no colon is taken apart into that account id and that role name, path included.
pub get_from_build_principal_arn :
    (account_id role_name : String)
    → is_aws_account_id account_id ≡ true
    → is_set role_name ≡ true
    → NoColon role_name
    → (get_account_id_from_arn (build_principal_arn account_id role_name) ≡ ok account_id)
      × (get_role_name_from_arn (build_principal_arn account_id role_name) ≡ ok role_name)
unfolding get_account_id_from_arn get_role_name_from_arn
get_from_build_principal_arn a r h k n =
    let (digits, there) = is_aws_account_id-digits a h in
    let e = split_colon-build a r (strip_digits-NoColon 12 a digits) n in
    (rw (e, there, h) refl, rw (e, strip_role r, k) refl)
