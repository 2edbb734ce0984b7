-- ===== src/Team/Admins.antt =====
-- A team that has an admin keeps one.
use aws_access_bridge.Base.{
  ℕ, ◌+◌, ◌≤◌, String, ◌≡◌, refl, some, List, [], ◌∷◌, map, Bool, true, false, not, ◌&&◌, ◌||◌,
  ◌==◌, keep_if, Bool-cases, Option-cases, inl, inr, and-true, and-false, leb, leb→lt, is_set,
  arith, if◌then◌else◌,
}
use aws_access_bridge.Base.Exec.{throw_if-state}
use aws_access_bridge.Owner.{Owner}
use aws_access_bridge.Team.{assert_not_the_last_admin, remove_member, update_member_role}
use aws_access_bridge.Team.Members.{
  Member, count_if, selects, is_admin, count_admins, get_member_role, remove_member_rows,
  update_member_rows,
}

module _ (team : String) (o : Owner) where
  abbrev both : Member → Bool
  both m = selects team o m && is_admin team m

  count_if-both : (ms : List Member) → count_if both ms ≤ count_if (selects team o) ms
  count_if-both [] = omega arith
  count_if-both (m ∷ ms) = elim (Bool-cases (selects team o m)) [
    | inr e ↦ rw (count_if, e) (count_if-both ms)
    | inl e ↦ elim (Bool-cases (is_admin team m)) [
      | inl f ↦ rw (count_if, e, f) (let h = count_if-both ms in omega arith)
      | inr f ↦ rw (count_if, e, f) (let h = count_if-both ms in omega arith)
    ]
  ]

  -- What a removal takes from the admins.
  count_if-removed :
      (ms : List Member)
      → count_if (is_admin team) (keep_if (λ m. not (selects team o m)) ms) + count_if both ms
        ≡ count_if (is_admin team) ms
  count_if-removed [] = omega arith
  count_if-removed (m ∷ ms) =
      let h = count_if-removed ms in
      elim (Bool-cases (selects team o m)) [
        | inl e ↦ elim (Bool-cases (is_admin team m)) [
          | inl f ↦ rw (count_if, keep_if, e, f) (omega arith)
          | inr f ↦ rw (count_if, keep_if, e, f) (omega arith)
        ]
        | inr e ↦ elim (Bool-cases (is_admin team m)) [
          | inl f ↦ rw (count_if, keep_if, e, f) (omega arith)
          | inr f ↦ rw (count_if, keep_if, e, f) (omega arith)
        ]
      ]

  -- The only row of a member who is no admin is no admin's.
  count_if-member :
      (ms : List Member) (role : String)
      → get_member_role team o ms ≡ some role
      → (role == "admin") ≡ false
      → count_if (selects team o) ms ≤ 1
      → count_if both ms ≡ 0
  unfolding get_member_role is_admin
  count_if-member [] role e r h = cc
  count_if-member (m ∷ ms) role e r h = elim (Bool-cases (selects team o m)) [
    | inr f ↦ rw (count_if, f) (count_if-member ms role (rw f at e) r (rw (count_if, f) at h))
    | inl f ↦
        let same : m.role ≡ role = cc (rw f at e) in
        let plain : is_admin team m ≡ false = rw (same, r, and-false (m.team_id == team)) refl in
        let few = rw (count_if, f) at h in
        let none_left = count_if-both ms in
        rw (count_if, plain, and-false (selects team o m)) (omega arith)
  ]

  module _ (role : String) where
    abbrev changed : Member → Member
    changed m = if selects team o m then record m { role = role } else m

    -- What a change to a plain role takes from the admins.
    count_if-demoted :
        (ms : List Member)
        → (role == "admin") ≡ false
        → count_if (is_admin team) (map changed ms) + count_if both ms ≡ count_if (is_admin team) ms
    unfolding is_admin
    count_if-demoted [] r = omega arith
    count_if-demoted (m ∷ ms) r =
        let h = count_if-demoted ms r in
        elim (Bool-cases (selects team o m)) [
          | inl e ↦
              let plain : is_admin team (record m { role = role }) ≡ false =
                rw (r, and-false (m.team_id == team)) refl in
              elim (Bool-cases (is_admin team m)) [
                | inl f ↦ rw (map, count_if, e, f, plain) (omega arith)
                | inr f ↦ rw (map, count_if, e, f, plain) (omega arith)
              ]
          | inr e ↦ elim (Bool-cases (is_admin team m)) [
            | inl f ↦ rw (map, count_if, e, f) (omega arith)
            | inr f ↦ rw (map, count_if, e, f) (omega arith)
          ]
        ]

    -- A change to the admin role takes none.
    count_if-promoted :
        (ms : List Member)
        → (role == "admin") ≡ true
        → count_if (is_admin team) ms ≤ count_if (is_admin team) (map changed ms)
    unfolding is_admin selects
    count_if-promoted [] r = omega arith
    count_if-promoted (m ∷ ms) r =
        let h = count_if-promoted ms r in
        elim (Bool-cases (selects team o m)) [
          | inl e ↦
              let (here, owns) = and-true (m.team_id == team) _ e in
              let full : is_admin team (record m { role = role }) ≡ true = rw (here, r) refl in
              elim (Bool-cases (is_admin team m)) [
                | inl f ↦ rw (map, count_if, e, f, full) (omega arith)
                | inr f ↦ rw (map, count_if, e, f, full) (omega arith)
              ]
          | inr e ↦ elim (Bool-cases (is_admin team m)) [
            | inl f ↦ rw (map, count_if, e, f) (omega arith)
            | inr f ↦ rw (map, count_if, e, f) (omega arith)
          ]
        ]

  -- What both writes leave, if they take away no more admins than the selected rows.
  admins_left :
      (ms : List Member) (current : String) (left : ℕ)
      → get_member_role team o ms ≡ some current
      → count_if (selects team o) ms ≤ 1
      → 1 ≤ count_if (is_admin team) ms
      → ((current == "admin") && leb (count_if (is_admin team) ms) 1) ≡ false
      → left + count_if both ms ≡ count_if (is_admin team) ms
      → 1 ≤ left
  admins_left ms current left e h k guard taken =
      let few = count_if-both ms in
      elim (Bool-cases (current == "admin")) [
        | inl a ↦ let more = leb→lt (count_if (is_admin team) ms) 1 (rw a at guard) in omega arith
        | inr a ↦ let no_admin = count_if-member ms current e a h in omega arith
      ]

module _ (owner_for : String → Owner) (team user_email : String) (ms : List Member) where
  -- Whatever the outcome of a removal.
  remove_member-count_admins :
      count_if (selects team (owner_for user_email)) ms ≤ 1
      → 1 ≤ count_admins team ms
      → 1 ≤ count_admins team (remove_member owner_for team user_email ms).1
  unfolding remove_member assert_not_the_last_admin count_admins remove_member_rows
  remove_member-count_admins h k =
      let o = owner_for user_email in
      elim (Bool-cases (not (is_set team) || not (is_set user_email))) [
        | inl x ↦ rw x k
        | inr x ↦ elim (Option-cases (get_member_role team o ms)) [
          | inl r ↦ rw (x, r) k
          | inr (current, r) ↦
              elim (Bool-cases ((current == "admin") && leb (count_if (is_admin team) ms) 1)) [
                | inl g ↦ rw (x, r, assert_not_the_last_admin, r, g) k
                | inr g ↦
                    let kept =
                      admins_left team o ms current _ r h k g (count_if-removed team o ms) in
                    rw (x, r, assert_not_the_last_admin, r, g, throw_if-state) kept
              ]
        ]
      ]

  -- The change of role once the row is found.
  changed_role :
      (role current : String)
      → (not (is_set team) || not (is_set user_email) || not (is_set role)) ≡ false
      → get_member_role team (owner_for user_email) ms ≡ some current
      → count_if (selects team (owner_for user_email)) ms ≤ 1
      → 1 ≤ count_admins team ms
      → 1 ≤ count_admins team (update_member_role owner_for team user_email role ms).1
  unfolding update_member_role assert_not_the_last_admin count_admins update_member_rows
  changed_role role current x r h k =
      let o = owner_for user_email in
      elim (Bool-cases (role == "admin")) [
        | inl p ↦
            let kept = count_if-promoted team o role ms p in
            elim (Bool-cases (current == "admin")) [
              | inl a ↦ rw (x, r, a, p, throw_if-state) (omega arith)
              | inr a ↦ rw (x, r, a, throw_if-state) (omega arith)
            ]
        | inr p ↦
            let taken = count_if-demoted team o role ms p in
            elim (Bool-cases ((current == "admin") && leb (count_if (is_admin team) ms) 1)) [
              | inl g ↦
                  let (a, few) = and-true (current == "admin") _ g in
                  rw (x, r, a, p, assert_not_the_last_admin, r, g) k
              | inr g ↦
                  let kept = admins_left team o ms current _ r h k g taken in
                  elim (Bool-cases (current == "admin")) [
                    | inl a ↦ rw (x, r, a, p, assert_not_the_last_admin, r, g, throw_if-state) kept
                    | inr a ↦ rw (x, r, a, throw_if-state) kept
                  ]
            ]
      ]

  -- Whatever the outcome of a change of role.
  update_member_role-count_admins :
      (role : String)
      → count_if (selects team (owner_for user_email)) ms ≤ 1
      → 1 ≤ count_admins team ms
      → 1 ≤ count_admins team (update_member_role owner_for team user_email role ms).1
  unfolding update_member_role assert_not_the_last_admin count_admins update_member_rows
  update_member_role-count_admins role h k =
      let o = owner_for user_email in
      elim (Bool-cases (not (is_set team) || not (is_set user_email) || not (is_set role))) [
        | inl x ↦ rw x k
        | inr x ↦ elim (Option-cases (get_member_role team o ms)) [
          | inl r ↦ rw (x, r) k
          | inr (current, r) ↦ changed_role role current x r h k
        ]
      ]

  -- Whatever the outcome, a removal and a change of role leave an admin in a team that had one, where
  -- the owner has at most one row in the team.
  pub members-count_admins :
      (role : String)
      → count_if (selects team (owner_for user_email)) ms ≤ 1
      → 1 ≤ count_admins team ms
      → (1 ≤ count_admins team (remove_member owner_for team user_email ms).1)
        × (1 ≤ count_admins team (update_member_role owner_for team user_email role ms).1)
  members-count_admins role h k =
      (remove_member-count_admins h k, update_member_role-count_admins role h k)
