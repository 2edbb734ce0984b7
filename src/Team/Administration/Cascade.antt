-- ===== src/Team/Administration/Cascade.antt =====
-- What the deletion of a team takes with it.
use aws_access_bridge.Base.{
  String, ◌≡◌, ◌≢◌, refl, ap, sym, List, [], ◌∷◌, Bool, true, false, not, ◌==◌, inl, inr,
  Bool-cases, keep_if, eq_iff, eq_refl, differ, is_set, if◌then◌else◌,
}
use aws_access_bridge.Base.Errors.{ok}
use aws_access_bridge.Base.Exec.{throw_if-eq-ok}
use aws_access_bridge.Team.Members.{Member}
use aws_access_bridge.Team.Administration.{
  Teams, TeamRow, TeamAccount, delete_team, delete_team_rows, default_team_id,
}

module _ {A : Type 0} (p q : A → Bool) where
  -- What passes the second test passes the first filter.
  keep_if-keep_if :
      (xs : List A) → ((x : A) → p x ≡ true → q x ≡ true) → keep_if p (keep_if q xs) ≡ keep_if p xs
  keep_if-keep_if [] h = refl
  keep_if-keep_if (x ∷ xs) h = elim (Bool-cases (p x)) [
    | inl e ↦ rw (keep_if, h x e, keep_if, e) (ap (λ ys. x ∷ ys) (keep_if-keep_if xs h))
    | inr e ↦ elim (Bool-cases (q x)) [
      | inl f ↦ rw (keep_if, f, keep_if, e) (keep_if-keep_if xs h)
      | inr f ↦ rw (keep_if, f, e) (keep_if-keep_if xs h)
    ]
  ]

keep_if-not :
    {A : Type 0} (p : A → Bool) (xs : List A) → keep_if p (keep_if (λ x. not (p x)) xs) ≡ []
keep_if-not p [] = refl
keep_if-not p (x ∷ xs) = elim (Bool-cases (p x)) [
  | inl e ↦ rw (keep_if, e) (keep_if-not p xs)
  | inr e ↦ rw (keep_if, e, keep_if, e) (keep_if-not p xs)
]

-- The rows of a table that are a team's, after another team's are deleted.
table-deleted :
    {A : Type 0} (team_of : A → String) (team other : String) (xs : List A)
    → keep_if (λ x. team_of x == other) (keep_if (λ x. not (team_of x == team)) xs)
      ≡ (if other == team then [] else keep_if (λ x. team_of x == other) xs)
table-deleted team_of team other xs = elim (Bool-cases (other == team)) [
  | inl e ↦ rw ((eq_iff other team).0 e, eq_refl team) (keep_if-not (λ x. team_of x == team) xs)
  | inr e ↦ rw e (
      keep_if-keep_if (λ x. team_of x == other) (λ x. not (team_of x == team)) xs
        (λ x h. rw ((eq_iff (team_of x) other).0 h, e) refl))
]

-- Everything that a team has: its row, its members and its accounts.
pub record TeamContents : Type 0 where
  pub team_rows : List TeamRow
  pub team_members : List Member
  pub team_accounts : List TeamAccount

abbrev pub contents : String → Teams → TeamContents
contents id s = record {
  team_rows = keep_if (λ t. t.team_id == id) s.teams;
  team_members = keep_if (λ m. m.team_id == id) s.members;
  team_accounts = keep_if (λ a. a.team_id == id) s.accounts;
}

abbrev no_contents : TeamContents
no_contents = record { team_rows = []; team_members = []; team_accounts = [] }

if-contents :
    (b : Bool) (rows : List TeamRow) (members : List Member) (accounts : List TeamAccount)
    → record {
      team_rows = if b then [] else rows;
      team_members = if b then [] else members;
      team_accounts = if b then [] else accounts;
    }
      ≡ (if b
          then no_contents
          else record { team_rows = rows; team_members = members; team_accounts = accounts })
if-contents true rows members accounts = refl
if-contents false rows members accounts = refl

deleted-contents :
    (team other : String) (s : Teams)
    → contents other (delete_team_rows team s)
      ≡ (if other == team then no_contents else contents other s)
unfolding delete_team_rows
deleted-contents team other s =
    rw
      (
        table-deleted (λ t. t.team_id) team other s.teams,
        table-deleted (λ m. m.team_id) team other s.members,
        table-deleted (λ a. a.team_id) team other s.accounts,
      )
      (if-contents (other == team) _ _ _)

-- Where `deleteTeam` returns, the team was not the default team, it has no row, no member and no
-- account left, and every other team has what it had.
pub delete_team-contents :
    (team other : String) (s t : Teams)
    → delete_team team s ≡ (ok tt, t)
    → (team ≢ default_team_id)
      × (contents other t ≡ (if other == team then no_contents else contents other s))
unfolding delete_team
delete_team-contents team other s t h =
    let (_, rest) = throw_if-eq-ok (not (is_set team)) _ _ s t tt h in
    let (other_team, rest) = throw_if-eq-ok (team == default_team_id) _ _ s t tt rest in
    (
      differ team default_team_id other_team,
      rw (sym (ap (λ r. r.1) rest)) (deleted-contents team other s),
    )
