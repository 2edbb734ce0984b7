-- ===== src/Scheduled/Worker/Overlap.antt =====
-- The runs that are in flight together.
use aws_access_bridge.Base.{
  ℕ, ◌+◌, ◌-◌, ◌≤◌, ◌<◌, String, ◌≡◌, ◌⊎◌, inl, inr, refl, sym, Option, none, some, List, [], ◌∷◌,
  Bool, true, false, not, ◌==◌, ltb, nat_eq, keep_if, All, Bool-cases, arith,
}
use aws_access_bridge.Scheduled.Worker.{
  ActiveRun, CronTasksWorker, already_running, max_run_age_ms, cron_tasks_run_path, start,
  start_unless, on_request, cleared, settle, new_worker, Steps, done, requested, settled,
}

-- Each run started at least the maximum age after every run that is still in flight.
abbrev pub IsSpaced : List ActiveRun → Type 0
IsSpaced [] = Unit
IsSpaced (r ∷ rs) = All (λ q. q.started_at + max_run_age_ms ≤ r.started_at) rs × IsSpaced rs

-- The run that the guard holds, or one that has outlived the maximum age.
abbrev pub IsHeldOrOld : Option ActiveRun → ℕ → ActiveRun → Type 0
IsHeldOrOld current now r = (current ≡ some r) ⊎ (r.started_at + max_run_age_ms ≤ now)

pub record IsGuarded (w : CronTasksWorker) (now : ℕ) : Type 0 where
  pub spaced : IsSpaced w.in_flight
  pub held : All (IsHeldOrOld w.current_run now) w.in_flight

abbrev dropped : ActiveRun → List ActiveRun → List ActiveRun
dropped run = keep_if (λ r. not (nat_eq r.identity run.identity))

All-dropped :
    (P : ActiveRun → Type 0) (run : ActiveRun) (rs : List ActiveRun)
    → All P rs
    → All P (dropped run rs)
All-dropped P run [] h = tt
All-dropped P run (r ∷ rs) (h, hs) = elim (Bool-cases (nat_eq r.identity run.identity)) [
  | inl e ↦ rw (keep_if, e) (All-dropped P run rs hs)
  | inr e ↦ rw (keep_if, e) (h, All-dropped P run rs hs)
]

dropped-IsSpaced : (run : ActiveRun) (rs : List ActiveRun) → IsSpaced rs → IsSpaced (dropped run rs)
dropped-IsSpaced run [] h = tt
dropped-IsSpaced run (r ∷ rs) (h, hs) = elim (Bool-cases (nat_eq r.identity run.identity)) [
  | inl e ↦ rw (keep_if, e) (dropped-IsSpaced run rs hs)
  | inr e ↦ rw (keep_if, e) (All-dropped _ run rs h, dropped-IsSpaced run rs hs)
]

-- A run that is not the settled one is still held, where it was.
still_held :
    (run r : ActiveRun) (current : Option ActiveRun) (now : ℕ)
    → nat_eq r.identity run.identity ≡ false
    → IsHeldOrOld current now r
    → IsHeldOrOld (cleared run current) now r
still_held run r current now e (inr old) = inr old
still_held run r current now e (inl h) = inl (rw (h, cleared, e) refl)

dropped-held :
    (run : ActiveRun) (current : Option ActiveRun) (now : ℕ) (rs : List ActiveRun)
    → All (IsHeldOrOld current now) rs
    → All (IsHeldOrOld (cleared run current) now) (dropped run rs)
dropped-held run current now [] h = tt
dropped-held run current now (r ∷ rs) (h, hs) = elim (Bool-cases (nat_eq r.identity run.identity)) [
  | inl e ↦ rw (keep_if, e) (dropped-held run current now rs hs)
  | inr e ↦ rw (keep_if, e) (still_held run r current now e h, dropped-held run current now rs hs)
]

held-later :
    (current : Option ActiveRun) (now later : ℕ) (rs : List ActiveRun)
    → now ≤ later
    → All (IsHeldOrOld current now) rs
    → All (IsHeldOrOld current later) rs
held-later current now later [] l h = tt
held-later current now later (r ∷ rs) l (inl e, hs) = (inl e, held-later current now later rs l hs)
held-later current now later (r ∷ rs) l (inr o, hs) =
    (inr (omega arith), held-later current now later rs l hs)

-- Where the guard lets a run start, the others are old.
abbrev IsFree : Option ActiveRun → ℕ → Type 0
IsFree current now = (c : ActiveRun) → current ≡ some c → c.started_at + max_run_age_ms ≤ now

all_old :
    (current : Option ActiveRun) (now : ℕ) (rs : List ActiveRun)
    → IsFree current now
    → All (IsHeldOrOld current now) rs
    → All (λ q. q.started_at + max_run_age_ms ≤ now) rs
all_old current now [] free h = tt
all_old current now (r ∷ rs) free (inl e, hs) = (free r e, all_old current now rs free hs)
all_old current now (r ∷ rs) free (inr o, hs) = (o, all_old current now rs free hs)

old-held :
    (current : Option ActiveRun) (now : ℕ) (rs : List ActiveRun)
    → All (λ q. q.started_at + max_run_age_ms ≤ now) rs
    → All (IsHeldOrOld current now) rs
old-held current now [] h = tt
old-held current now (r ∷ rs) (o, hs) = (inr o, old-held current now rs hs)

older : (started now age : ℕ) → 0 < age → ltb (now - started) age ≡ false → started + age ≤ now
older started now age positive h = ground arith

module _ (w : CronTasksWorker) (now : ℕ) (g : IsGuarded w now) where
  start-IsGuarded : IsFree w.current_run now → IsGuarded (start now w).1 now
  start-IsGuarded free =
      let old = all_old w.current_run now w.in_flight free g.held in
      record {
        spaced = (old, g.spaced);
        held = (
          inl refl,
          old-held (some (record { identity = w.next_identity; started_at = now })) now w.in_flight
              old,
        );
      }

  start_unless-IsGuarded :
      (o : Option ActiveRun) → w.current_run ≡ o → IsGuarded (start_unless o now w).1 now
  start_unless-IsGuarded none e = start-IsGuarded (λ c h. cc)
  start_unless-IsGuarded (some c) e = elim (Bool-cases (ltb (now - c.started_at) max_run_age_ms)) [
    | inl young ↦ rw young g
    | inr old ↦ rw old (
        start-IsGuarded (λ d h.
          let same : c ≡ d = cc in
          rw (sym same) (older c.started_at now max_run_age_ms (omega arith) old)))
  ]

  on_request-IsGuarded :
      (pathname method : String) → IsGuarded (on_request pathname method now w).1 now
  unfolding on_request
  on_request-IsGuarded pathname method = elim (Bool-cases (pathname == cron_tasks_run_path)) [
    | inr e ↦ rw e g
    | inl e ↦ elim (Bool-cases (method == "POST")) [
      | inr f ↦ rw (e, f) g
      | inl f ↦ rw (e, f) (start_unless-IsGuarded w.current_run refl)
    ]
  ]

  settle-IsGuarded : (run : ActiveRun) (b : Bool) → IsGuarded (settle run b w).1 now
  unfolding settle
  settle-IsGuarded run b = record {
    spaced = dropped-IsSpaced run w.in_flight g.spaced;
    held = dropped-held run w.current_run now w.in_flight g.held;
  }

  later-IsGuarded : (later : ℕ) → now ≤ later → IsGuarded w later
  later-IsGuarded later l = record {
    spaced = g.spaced;
    held = held-later w.current_run now later w.in_flight l g.held;
  }

Steps-IsGuarded :
    {w v : CronTasksWorker} {now t : ℕ} → Steps w now v t → IsGuarded w now → IsGuarded v t
Steps-IsGuarded (done w now) g = g
Steps-IsGuarded (requested pathname method later w now l rest) g =
    Steps-IsGuarded rest
      (on_request-IsGuarded w later (later-IsGuarded w now g later l) pathname method)
Steps-IsGuarded (settled run b w now rest) g = Steps-IsGuarded rest (settle-IsGuarded w now g run b)

-- A run that is younger than the maximum age is the one that the guard holds, so that a request to
-- run is answered `already_running`.
refuses :
    (w : CronTasksWorker) (now : ℕ) (rs : List ActiveRun)
    → All (IsHeldOrOld w.current_run now) rs
    → All
        (λ r.
          now < r.started_at + max_run_age_ms
          → on_request cron_tasks_run_path "POST" now w ≡ (already_running, w))
        rs
unfolding on_request
refuses w now [] h = tt
refuses w now (r ∷ rs) (inr o, hs) = (λ young. absurd (omega arith), refuses w now rs hs)
refuses w now (r ∷ rs) (inl e, hs) = (
  λ young.
      let early : ltb (now - r.started_at) max_run_age_ms ≡ true = ground arith in
      rw (e, start_unless, early) refl,
  refuses w now rs hs,
)

-- However requests arrive and runs settle at a new worker, and whichever runs hang: of the runs in
-- flight each started at least the maximum age after every older one, and while one of them is
-- younger than the maximum age, a request to run is answered `already_running` and changes nothing.
pub Steps-IsSpaced :
    (begin t : ℕ) (v : CronTasksWorker)
    → Steps new_worker begin v t
    → IsSpaced v.in_flight
      × All
          (λ r.
            t < r.started_at + max_run_age_ms
            → on_request cron_tasks_run_path "POST" t v ≡ (already_running, v))
          v.in_flight
Steps-IsSpaced begin t v steps =
    let g = Steps-IsGuarded steps (record { spaced = tt; held = tt }) in
    (g.spaced, refuses v t v.in_flight g.held)
