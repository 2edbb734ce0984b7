-- ===== src/Team/Administration/Membership.antt =====
-- A member that was added has the role it was added with.
use aws_access_bridge.Base.{
  ℕ, String, ◌≡◌, refl, ap, sym, ◌∙◌, Option, none, some, List, [], ◌∷◌, ◌++◌, Bool, true, false,
  not, ◌&&◌, ◌||◌, ◌==◌, inl, inr, Bool-cases, Option-cases, any, and-true, or-right, or-false,
  eq_refl, is_set, nat_eq,
}
use mathlib.Core.Bool.{true≢false}
use aws_access_bridge.Base.Errors.{ServiceError, ok, bad_request}
use aws_access_bridge.Base.Exec.{throw_if, throw_if-eq-ok, >>=-eq-ok}
use aws_access_bridge.Owner.{Owner, owner_clause}
use aws_access_bridge.Identity.Users.{ensure_user_email_exists}
use aws_access_bridge.Team.{missing_fields}
use aws_access_bridge.Team.Members.{Member, selects, get_member_role, add_member_row, same_id}
use aws_access_bridge.Team.Administration.{Teams, add_member, in_registry}

guard-eq-ok :
    (b : Bool) (e : ServiceError) (s t : Teams)
    → throw_if b e s ≡ (ok tt, t)
    → (b ≡ false) × (t ≡ s)
guard-eq-ok true e s t h = cc
guard-eq-ok false e s t h = (refl, sym (ap (λ r. r.1) h))

module _ (o : Owner) where
  owner_clause-conflict :
      (user_id : Option String) (email : String)
      → owner_clause o user_id email ≡ true
      → (email == o.anchor_email || same_id user_id o.user_id) ≡ true
  unfolding owner_clause
  owner_clause-conflict none email h = rw h refl
  owner_clause-conflict (some id) email h = elim (Option-cases o.user_id) [
    | inl e ↦ cc (rw e at h)
    | inr (u, e) ↦ or-right (email == o.anchor_email) _ (rw e (rw e at h))
  ]

  owner_clause-own : owner_clause o o.user_id o.anchor_email ≡ true
  unfolding owner_clause
  owner_clause-own = elim (Option-cases o.user_id) [
    | inl e ↦ rw e (eq_refl o.anchor_email)
    | inr (id, e) ↦ rw e (eq_refl id)
  ]

  module _ (team : String) where
    abbrev clashes : Member → Bool
    clashes m = m.team_id == team && (m.user_email == o.anchor_email || same_id m.user_id o.user_id)

    selects-clashes : (m : Member) → selects team o m ≡ true → clashes m ≡ true
    unfolding selects
    selects-clashes m h =
        let (a, b) = and-true (m.team_id == team) _ h in
        rw (a, owner_clause-conflict m.user_id m.user_email b) refl

    get_member_role-append :
        (ms : List Member) (row : Member)
        → any clashes ms ≡ false
        → selects team o row ≡ true
        → get_member_role team o (ms ++ row ∷ []) ≡ some row.role
    unfolding get_member_role
    get_member_role-append [] row h e = rw e refl
    get_member_role-append (m ∷ ms) row h e =
        let (free, others) = or-false (clashes m) (any clashes ms) h in
        elim (Bool-cases (selects team o m)) [
          | inl f ↦ absurd (true≢false (sym (selects-clashes m f) ∙ free))
          | inr f ↦ rw f (get_member_role-append ms row others e)
        ]

    abbrev own_row : String → ℕ → Member
    own_row role now = record {
      team_id = team;
      user_email = o.anchor_email;
      user_id = o.user_id;
      role = role;
      joined_at = now;
    }

    selects-own : (role : String) (now : ℕ) → selects team o (own_row role now) ≡ true
    unfolding selects
    selects-own role now = rw (eq_refl team) owner_clause-own

    add_member_row-role :
        (role : String) (now : ℕ) (ms : List Member)
        → nat_eq (add_member_row team o role now ms).0 0 ≡ false
        → get_member_role team o (add_member_row team o role now ms).1 ≡ some role
    unfolding add_member_row
    add_member_row-role role now ms h = elim (Bool-cases (any clashes ms)) [
      | inl e ↦ cc (rw e at h)
      | inr e ↦ rw e (get_member_role-append ms _ e (selects-own role now))
    ]

-- Where `addMember` returns, the user has the role that was asked for in the team.
add_member-role :
    (m : ServiceError → Bool) (owner_for : String → Owner) (new_id : String) (now : ℕ)
    (team user_email role : String) (s t : Teams)
    → add_member m owner_for new_id now team user_email role s ≡ (ok tt, t)
    → get_member_role team (owner_for user_email) t.members ≡ some role
unfolding add_member
add_member-role m owner_for new_id now team user_email role s t h =
    let o = owner_for user_email in
    let (_, rest) =
      throw_if-eq-ok (not (is_set team) || not (is_set user_email)) (bad_request missing_fields) _ s
        t tt h in
    let (_, _, rest) =
      >>=-eq-ok _ (in_registry (ensure_user_email_exists m new_id o.anchor_email)) s t tt rest in
    let (added, left) = guard-eq-ok _ _ _ t rest in
    rw left (add_member_row-role o team role now s.members added)
