-- ===== src/Migrations/Lock/Rebuilt.antt =====
-- What the check finds of the lock that `--write` leaves.
use aws_access_bridge.Base.{
  String, ◌≡◌, inl, inr, refl, sym, ap, ◌∙◌, Option, none, some, List, [], ◌∷◌, map, true, false,
  not, ◌==◌, eq_iff, eq_refl, Bool-cases, Option-cases, or-right, keep_if-agree, keep_if-none,
  All-imp, All-and, and-false, All,
}
use text.Mathlib.TextPositions.{compare_refl}
use aws_access_bridge.Migrations.Names.{is_subsumed, newest_of, text_lt}
use aws_access_bridge.Migrations.Lock.{
  MigrationFile, Entries, entry, keys, names_of, has, not_locked, is_the_baseline,
  computed_baseline, is_edited, edited_findings, found, edited, orphan, out_of_order, is_orphan,
  is_late, orphan_findings, out_of_order_findings, recorded_differs,
}
use aws_access_bridge.Migrations.Lock.Entries.{none-has, has-entry}
use aws_access_bridge.Migrations.Lock.Write.{
  AreDistinct, rewritten, rewritten-recorded, rewritten-there, rewritten-none, rewritten-Added,
}

-- The baseline is subsumed by itself.
baseline_subsumed :
    (n : String) (b : Option String) → is_the_baseline n b ≡ true → is_subsumed n b ≡ true
unfolding is_subsumed
baseline_subsumed n none h = cc
baseline_subsumed n (some b) h = rw ((eq_iff n b).0 h, compare_refl b) refl

module _ (files : List MigrationFile) (locked built : Entries)
    (reads : (n : String) → entry n built ≡ entry n (rewritten files locked)) where
  same_edited :
      (f : MigrationFile)
      → has f.name (names_of files) ≡ true
      → (has f.name (keys locked) ≡ false → entry f.name (rewritten files locked) ≡ some f.digest)
      → is_edited files built f ≡ is_edited files locked f
  same_edited f there added = elim (Option-cases (entry f.name locked)) [
    | inl e ↦ rw (reads f.name, added (none-has f.name locked e), e, eq_refl f.digest) refl
    | inr (r, e) ↦ elim (Bool-cases (is_the_baseline f.name (computed_baseline files))) [
      | inl b ↦ rw (baseline_subsumed f.name (computed_baseline files) b) (
          and-false (recorded_differs (entry f.name built) f.digest)
          ∙ sym (and-false (recorded_differs (entry f.name locked) f.digest)))
      | inr b ↦ rw (reads f.name, rewritten-recorded files locked f.name r there e b, e) refl
    ]
  ]

  own_names : (fs : List MigrationFile) → All (λ f. has f.name (names_of fs) ≡ true) fs
  own_names [] = tt
  own_names (f ∷ fs) =
      (rw (eq_refl f.name) refl, All-imp _ _ fs (λ g. or-right (f.name == g.name) _) (own_names fs))

  own_keys : (es : Entries) → All (λ n. has n (keys es) ≡ true) (keys es)
  own_keys [] = tt
  own_keys (e ∷ es) =
      (rw (eq_refl e.0) refl, All-imp _ _ (keys es) (λ n. or-right (e.0 == n) _) (own_keys es))

  module _ (d : AreDistinct files) where
    pub built-edited : edited_findings files built ≡ edited_findings files locked
    unfolding edited_findings
    built-edited = ap (map (λ f. found edited f.name)) (
        keep_if-agree (is_edited files built) (is_edited files locked) files (
          All-imp _ _ files (λ f (there, added). same_edited f there added)
            (All-and _ _ files (own_names files) (rewritten-Added files locked d))))

    file_there :
        (f : MigrationFile)
        → has f.name (names_of files) ≡ true
        → (has f.name (keys locked) ≡ false → entry f.name (rewritten files locked) ≡ some f.digest)
        → has f.name (keys built) ≡ true
    file_there f there added = elim (Option-cases (entry f.name locked)) [
      | inl e ↦ has-entry f.name f.digest built (reads f.name ∙ added (none-has f.name locked e))
      | inr (r, e) ↦
          let (v, k) = rewritten-there files locked f.name r there e in
          has-entry f.name v built (reads f.name ∙ k)
    ]

    files_there : All (λ f. has f.name (keys built) ≡ true) files
    files_there =
        All-imp _ _ files (λ f (there, added). file_there f there added)
          (All-and _ _ files (own_names files) (rewritten-Added files locked d))

    pub built-not_locked : not_locked files built ≡ []
    built-not_locked =
        keep_if-none (λ f. not (has f.name (keys built))) files
          (All-imp _ _ files (λ f h. ap not h) files_there)

    not_orphan : (n : String) → has n (keys built) ≡ true → is_orphan files n ≡ false
    not_orphan n h = elim (Bool-cases (has n (names_of files))) [
      | inl e ↦ rw e refl
      | inr e ↦ cc (none-has n built (reads n ∙ rewritten-none files locked n e), h)
    ]

    pub built-orphans : orphan_findings files built ≡ []
    unfolding orphan_findings
    built-orphans = ap (map (found orphan)) (
        keep_if-none (is_orphan files) (keys built)
          (All-imp _ _ (keys built) not_orphan (own_keys built)))

    not_late :
        (newest : Option String) (n : String)
        → has n (keys built) ≡ true
        → is_late files newest built n ≡ false
    not_late none n h = refl
    not_late (some cutoff) n h = rw h (and-false (text_lt n cutoff))

    names_there :
        (fs : List MigrationFile)
        → All (λ f. has f.name (keys built) ≡ true) fs
        → All (λ n. has n (keys built) ≡ true) (names_of fs)
    names_there [] h = tt
    names_there (f ∷ fs) (e, h) = (e, names_there fs h)

    pub built-out_of_order : out_of_order_findings files built ≡ []
    unfolding out_of_order_findings
    built-out_of_order = ap (map (found out_of_order)) (
        keep_if-none (is_late files (newest_of (keys built)) built) (names_of files) (
          All-imp _ _ (names_of files) (not_late (newest_of (keys built)))
            (names_there files files_there)))
