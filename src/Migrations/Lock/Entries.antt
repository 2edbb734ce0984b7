-- ===== src/Migrations/Lock/Entries.antt =====
-- The entries of a lock, looked up by name.
use aws_access_bridge.Base.{
  String, ◌≡◌, inl, inr, refl, none, some, [], ◌∷◌, true, false, ◌==◌, eq_iff, eq_refl, Bool-cases,
  Option-cases, or-right,
}
use aws_access_bridge.Migrations.Lock.{Entries, entry, keys, has, put}

pub entry-put-same : (n d : String) (es : Entries) → entry n (put n d es) ≡ some d
unfolding entry put
entry-put-same n d [] = rw (eq_refl n) refl
entry-put-same n d ((k, v) ∷ es) = elim (Bool-cases (k == n)) [
  | inl e ↦ rw (e, e) refl
  | inr e ↦ rw (e, e) (entry-put-same n d es)
]

pub entry-put-other :
    (n m d : String) (es : Entries) → (m == n) ≡ false → entry n (put m d es) ≡ entry n es
unfolding entry put
entry-put-other n m d [] h = rw h refl
entry-put-other n m d ((k, v) ∷ es) h = elim (Bool-cases (k == m)) [
  | inl e ↦ let other : (k == n) ≡ false = rw (← (eq_iff k m).0 e) at h in rw (e, other) refl
  | inr e ↦
      rw e (elim (Bool-cases (k == n)) [
        | inl f ↦ rw f refl
        | inr f ↦ rw f (entry-put-other n m d es h)
      ])
]

pub has-entry : (n d : String) (es : Entries) → entry n es ≡ some d → has n (keys es) ≡ true
unfolding entry
has-entry n d [] h = cc
has-entry n d ((k, v) ∷ es) h = elim (Bool-cases (k == n)) [
  | inl e ↦ rw e refl
  | inr e ↦ or-right (k == n) _ (has-entry n d es (rw e at h))
]

pub entry-none : (n : String) (es : Entries) → has n (keys es) ≡ false → entry n es ≡ none
entry-none n es h = elim (Option-cases (entry n es)) [
  | inl e ↦ e
  | inr (d, e) ↦ cc (has-entry n d es e)
]

pub entry-has :
    (n : String) (es : Entries) → has n (keys es) ≡ true → (d : String) × (entry n es ≡ some d)
unfolding entry
entry-has n [] h = cc
entry-has n ((k, v) ∷ es) h = elim (Bool-cases (k == n)) [
  | inl e ↦ (v, rw e refl)
  | inr e ↦ rw e (entry-has n es (rw e at h))
]

-- No entry, no key.
pub none-has : (n : String) (es : Entries) → entry n es ≡ none → has n (keys es) ≡ false
none-has n es h = elim (Bool-cases (has n (keys es))) [
  | inr e ↦ e
  | inl e ↦ let (d, f) = entry-has n es e in cc
]
