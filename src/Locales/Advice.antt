-- ===== src/Locales/Advice.antt =====
-- Which findings fail a run.
use aws_access_bridge.Base.{
  String, List, [], ◌∷◌, ◌++◌, map, Bool, true, false, not, keep_if, ◌≡◌, ◌↔◌, refl, ap, All,
  All-imp, not-false, none-keep_if, keep_if-none, if◌then◌else◌,
}
use aws_access_bridge.Locales.{Finding}
use aws_access_bridge.Locales.Run.{is_fatal, exit_code}

-- A finding that does not fail the run.
abbrev pub IsAdvice : Finding → Type 0
IsAdvice f = f.advisory ≡ true

pub All-append_iff :
    {A : Type 0} (P : A → Type 0) (xs ys : List A) → All P (xs ++ ys) ↔ (All P xs × All P ys)
All-append_iff P [] ys = (λ h. (tt, h), λ h. h.1)
All-append_iff P (x ∷ xs) ys =
    let rest = All-append_iff P xs ys in
    ((λ h. ((h.0, (rest.0 h.1).0), (rest.0 h.1).1)), (λ h. (h.0.0, rest.1 (h.0.1, h.1))))

pub both_iff :
    {P Q : Type 0} (fs gs : List Finding)
    → All IsAdvice fs ↔ P
    → All IsAdvice gs ↔ Q
    → All IsAdvice (fs ++ gs) ↔ (P × Q)
both_iff fs gs p q =
    let apart = All-append_iff IsAdvice fs gs in
    ((λ h. let (f, g) = apart.0 h in (p.0 f, q.0 g)), (λ h. apart.1 (p.1 h.0, q.1 h.1)))

exit-nil : (fs : List Finding) → exit_code fs ≡ 0 → fs ≡ []
exit-nil [] h = refl
exit-nil (f ∷ fs) h = cc

pub passes_iff : (fs : List Finding) → (exit_code (keep_if is_fatal fs) ≡ 0) ↔ All IsAdvice fs
passes_iff fs = (
  (λ h.
      All-imp (λ f. is_fatal f ≡ false) IsAdvice fs (λ f e. not-false f.advisory e)
        (none-keep_if is_fatal fs (exit-nil (keep_if is_fatal fs) h))),
  (λ h. ap exit_code (
      keep_if-none is_fatal fs
        (All-imp IsAdvice (λ f. is_fatal f ≡ false) fs (λ f e. ap not e) h))),
)

-- Findings of which none is advice.
abbrev pub AreFailures : List Finding → Type 0
AreFailures = All (λ f. f.advisory ≡ false)

pub failures_iff : (fs : List Finding) → AreFailures fs → All IsAdvice fs ↔ (fs ≡ [])
failures_iff [] h = (λ k. refl, λ k. tt)
failures_iff (f ∷ fs) h = (λ k. cc (h.0, k.0), λ k. cc)

pub map-AreFailures :
    (f : String → Finding) (xs : List String)
    → ((x : String) → (f x).advisory ≡ false)
    → AreFailures (map f xs)
map-AreFailures f [] h = tt
map-AreFailures f (x ∷ xs) h = (h x, map-AreFailures f xs h)

pub map-IsAdvice :
    (f : String → Finding) (xs : List String)
    → ((x : String) → (f x).advisory ≡ true)
    → All IsAdvice (map f xs)
map-IsAdvice f [] h = tt
map-IsAdvice f (x ∷ xs) h = (h x, map-IsAdvice f xs h)

pub append-AreFailures :
    (fs gs : List Finding) → AreFailures fs → AreFailures gs → AreFailures (fs ++ gs)
append-AreFailures fs gs f g = (All-append_iff (λ f. f.advisory ≡ false) fs gs).1 (f, g)

pub if_iff :
    {P : Type 0} (b : Bool) (fs : List Finding)
    → All IsAdvice fs ↔ P
    → All IsAdvice (if b then [] else fs) ↔ (b ≡ false → P)
if_iff true fs p = (λ h e. cc, λ f. tt)
if_iff false fs p = (λ h e. p.0 h, λ f. p.1 (f refl))
