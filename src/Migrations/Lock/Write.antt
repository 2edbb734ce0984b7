-- ===== src/Migrations/Lock/Write.antt =====
-- The lock that `--write` leaves.
use aws_access_bridge.Base.{
  String, ◌≡◌, inl, inr, refl, sym, ap, ◌∙◌, Option, none, some, List, [], ◌∷◌, true, false, not,
  ◌==◌, keep_if, keep_if-take, keep_if-skip, eq_iff, Bool-cases, subst, if-false, or-false, All,
  if◌then◌else◌,
}
use aws_access_bridge.Migrations.Lock.{
  MigrationFile, Entries, entry, keys, names_of, has, not_locked, put, keep_entry, kept_from,
  add_missing, is_the_baseline, computed_baseline,
}
use aws_access_bridge.Migrations.Lock.Entries.{entry-put-same, entry-put-other, has-entry}

-- No two files have one name.
abbrev pub AreDistinct : List MigrationFile → Type 0
AreDistinct [] = Unit
AreDistinct (f ∷ fs) = (has f.name (names_of fs) ≡ false) × AreDistinct fs

module _ (n : String) where
  add_missing-other :
      (ms : List MigrationFile) (kept : Entries)
      → has n (names_of ms) ≡ false
      → entry n (add_missing ms kept) ≡ entry n kept
  unfolding add_missing
  add_missing-other [] kept h = refl
  add_missing-other (f ∷ fs) kept h =
      let (differs, rest) = or-false (f.name == n) _ h in
      add_missing-other fs (put f.name f.digest kept) rest
      ∙ entry-put-other n f.name f.digest kept differs

  keep_entry-other :
      (computed : Option String) (f : MigrationFile) (o : Option String) (kept : Entries)
      → (f.name == n) ≡ false
      → entry n (keep_entry computed f o kept) ≡ entry n kept
  keep_entry-other computed f none kept h = refl
  keep_entry-other computed f (some r) kept h = entry-put-other n f.name _ kept h

  kept_from-other :
      (computed : Option String) (locked : Entries) (fs : List MigrationFile) (kept : Entries)
      → has n (names_of fs) ≡ false
      → entry n (kept_from computed locked fs kept) ≡ entry n kept
  unfolding kept_from
  kept_from-other computed locked [] kept h = refl
  kept_from-other computed locked (f ∷ fs) kept h =
      let (differs, rest) = or-false (f.name == n) _ h in
      kept_from-other computed locked fs (keep_entry computed f (entry f.name locked) kept) rest
      ∙ keep_entry-other computed f (entry f.name locked) kept differs

  not_locked-other :
      (fs : List MigrationFile) (locked : Entries)
      → has n (names_of fs) ≡ false
      → has n (names_of (not_locked fs locked)) ≡ false
  not_locked-other [] locked h = refl
  not_locked-other (f ∷ fs) locked h =
      let (differs, rest) = or-false (f.name == n) _ h in
      elim (Bool-cases (not (has f.name (keys locked)))) [
        | inl e ↦ rw (keep_if, e, differs) (not_locked-other fs locked rest)
        | inr e ↦ rw (keep_if, e) (not_locked-other fs locked rest)
      ]

  -- A file that is in the lock is not among those that are missing from it.
  not_locked-has :
      (fs : List MigrationFile) (locked : Entries)
      → has n (keys locked) ≡ true
      → has n (names_of (not_locked fs locked)) ≡ false
  not_locked-has [] locked h = refl
  not_locked-has (f ∷ fs) locked h = elim (Bool-cases (f.name == n)) [
    | inl e ↦
        let here : not (has f.name (keys locked)) ≡ false = rw ((eq_iff f.name n).0 e, h) refl in
        rw (keep_if, here) (not_locked-has fs locked h)
    | inr e ↦ elim (Bool-cases (not (has f.name (keys locked)))) [
      | inl k ↦ rw (keep_if, k, e) (not_locked-has fs locked h)
      | inr k ↦ rw (keep_if, k) (not_locked-has fs locked h)
    ]
  ]

  -- An entry that is recorded, where its file is there: the baseline's takes the file's digest, any
  -- other stays as it is.
  module _ (computed : Option String) (locked : Entries) (r : String)
      (recorded : entry n locked ≡ some r) (P : Option String → Type 0)
      (keeps : (d : String) → (is_the_baseline n computed ≡ false → d ≡ r) → P (some d)) where
    keep_entry-same :
        (f : MigrationFile) (kept : Entries)
        → f.name ≡ n
        → P (entry n (keep_entry computed f (entry f.name locked) kept))
    keep_entry-same f kept e =
        let d : String = if is_the_baseline f.name computed then f.digest else r in
        let found : entry f.name locked ≡ some r = ap (λ m. entry m locked) e ∙ recorded in
        let written : entry n (put f.name d kept) ≡ some d =
          ap (λ m. entry m (put f.name d kept)) (sym e) ∙ entry-put-same f.name d kept in
        rw found (
          subst P (sym written) (
            keeps d (λ other.
              if-false (is_the_baseline f.name computed) f.digest r
                (ap (λ m. is_the_baseline m computed) e ∙ other))))

    keep_entry-stays :
        (f : MigrationFile) (kept : Entries)
        → P (entry n kept)
        → P (entry n (keep_entry computed f (entry f.name locked) kept))
    keep_entry-stays f kept h = elim (Bool-cases (f.name == n)) [
      | inr e ↦ subst P (sym (keep_entry-other computed f (entry f.name locked) kept e)) h
      | inl e ↦ keep_entry-same f kept ((eq_iff f.name n).0 e)
    ]

    kept_from-stays :
        (fs : List MigrationFile) (kept : Entries)
        → P (entry n kept)
        → P (entry n (kept_from computed locked fs kept))
    unfolding kept_from
    kept_from-stays [] kept h = h
    kept_from-stays (f ∷ fs) kept h =
        kept_from-stays fs (keep_entry computed f (entry f.name locked) kept)
          (keep_entry-stays f kept h)

    kept_from-recorded :
        (fs : List MigrationFile) (kept : Entries)
        → has n (names_of fs) ≡ true
        → P (entry n (kept_from computed locked fs kept))
    unfolding kept_from
    kept_from-recorded [] kept h = cc
    kept_from-recorded (f ∷ fs) kept h = elim (Bool-cases (f.name == n)) [
      | inl e ↦
          kept_from-stays fs (keep_entry computed f (entry f.name locked) kept)
            (keep_entry-same f kept ((eq_iff f.name n).0 e))
      | inr e ↦ kept_from-recorded fs (keep_entry computed f (entry f.name locked) kept) (rw e at h)
    ]

-- What is added is there with its digest, where no two files have one name.
abbrev pub Added : Entries → List MigrationFile → Entries → Type 0
Added locked fs built =
    All (λ f. has f.name (keys locked) ≡ false → entry f.name built ≡ some f.digest) fs

add_missing-Added :
    (locked : Entries) (fs : List MigrationFile) (kept : Entries)
    → AreDistinct fs
    → Added locked fs (add_missing (not_locked fs locked) kept)
unfolding add_missing
add_missing-Added locked [] kept d = tt
add_missing-Added locked (f ∷ fs) kept (fresh, d) =
    elim (Bool-cases (not (has f.name (keys locked)))) [
      | inl e ↦
          subst (λ ms. Added locked (f ∷ fs) (add_missing ms kept))
            (sym (keep_if-take (λ g. not (has g.name (keys locked))) f fs e))
            (
              λ h.
                  add_missing-other f.name (not_locked fs locked) (put f.name f.digest kept)
                    (not_locked-other f.name fs locked fresh)
                  ∙ entry-put-same f.name f.digest kept,
              add_missing-Added locked fs (put f.name f.digest kept) d,
            )
      | inr e ↦
          subst (λ ms. Added locked (f ∷ fs) (add_missing ms kept))
            (sym (keep_if-skip (λ g. not (has g.name (keys locked))) f fs e))
            ((λ h. cc (rw h at e)), add_missing-Added locked fs kept d)
    ]

-- Of the lock that was, rebuilt over the files on disk.
module _ (files : List MigrationFile) (locked : Entries) where
  abbrev pub rewritten : Entries
  rewritten =
      add_missing (not_locked files locked) (kept_from (computed_baseline files) locked files [])

  module _ (n r : String) (there : has n (names_of files) ≡ true)
      (recorded : entry n locked ≡ some r) where
    rewritten-kept :
        entry n rewritten ≡ entry n (kept_from (computed_baseline files) locked files [])
    rewritten-kept =
        add_missing-other n (not_locked files locked) _
          (not_locked-has n files locked (has-entry n r locked recorded))

    pub rewritten-recorded :
        is_the_baseline n (computed_baseline files) ≡ false → entry n rewritten ≡ some r
    rewritten-recorded other =
        rewritten-kept
        ∙ kept_from-recorded n (computed_baseline files) locked r recorded (λ o. o ≡ some r)
            (λ d same. ap some (same other)) files [] there

    pub rewritten-there : (d : String) × (entry n rewritten ≡ some d)
    rewritten-there =
        let (d, e) =
          kept_from-recorded n (computed_baseline files) locked r recorded
            (λ o. (d : String) × (o ≡ some d)) (λ d same. (d, refl)) files [] there in
        (d, rewritten-kept ∙ e)

  -- No entry without its file.
  pub rewritten-none : (n : String) → has n (names_of files) ≡ false → entry n rewritten ≡ none
  unfolding entry
  rewritten-none n gone =
      add_missing-other n (not_locked files locked) _ (not_locked-other n files locked gone)
      ∙ kept_from-other n (computed_baseline files) locked files [] gone

  pub rewritten-Added : AreDistinct files → Added locked files rewritten
  rewritten-Added d =
      add_missing-Added locked files (kept_from (computed_baseline files) locked files []) d
