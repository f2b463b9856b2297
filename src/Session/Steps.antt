-- ===== src/Session/Steps.antt =====
-- Every step of a session keeps it to one tick.
use organic_web_wallet.Prelude.{
  ℕ, ◌+◌, ◌≤◌, ◌≡◌, refl, inl, inr, Bool, true, false, not, ◌||◌, Option, none, some, List, ◌∷◌,
  ◌++◌, All-append, All-split, arith, ltb, ◌==◌, Bool-cases, ap,
}
use organic_web_wallet.Session.{
  waiting, signing, submitting, accepted, Wait, candidates, tip, submission, preparation, Tick,
  Session, Outcome, coins, prepared, at_tip, submitted, publish, wait_for, next_offset, batch_size,
  take_batch, take_prepared, take_tip, take_submission, resume, start, Step, starts, stops, fires,
  resumes, Reachable, at_first, after_step,
}
use organic_web_wallet.Session.Single.{
  bit, waiting_ticks, timers, live, NotAbove, Fits, Held, waiting_ticks-append, stop-Fits,
  publish-Held, guarded-Fits, wait_for-Fits, finish-Fits, fail-Fits, tick-Fits, none_above,
  ticks_older,
}

offset-Held : (id n : ℕ) (s : Session) → Held id s → Held id (record s { offset = n })
offset-Held id n s (f, le) =
    (record { single = f.single; ticks_old = f.ticks_old; timer_old = f.timer_old }, le)

take_batch-Fits :
    (id : ℕ) (later : Bool) (allowed : ℕ) (s : Session)
    → Held id s
    → Fits 0 (take_batch id later allowed s)
unfolding take_batch
take_batch-Fits id later allowed s h =
    let offset = next_offset allowed s.offset in
    let batch = batch_size allowed offset in
    let h' = offset-Held id (offset + batch) s h in
    let t : Session = record s { offset = offset + batch } in
    elim (Bool-cases (batch == 0)) [
      | inl e ↦ rw e (finish-Fits id later (publish waiting t) (publish-Held id waiting t h'))
      | inr e ↦ rw e (wait_for-Fits id (preparation batch) t h')
    ]

take_prepared-Fits :
    (id : ℕ) (later : Bool) (batch eligible : ℕ) (has_template : Bool) (s : Session)
    → Held id s
    → Fits 0 (take_prepared id later batch eligible has_template s)
unfolding take_prepared
take_prepared-Fits id later batch eligible true s h = elim (Bool-cases (ltb batch eligible)) [
  | inl e ↦ rw e (fail-Fits id s h)
  | inr e ↦ rw e (wait_for-Fits id tip (publish waiting s) (publish-Held id waiting s h))
]
take_prepared-Fits id later batch eligible false s h = elim (Bool-cases (ltb batch eligible)) [
  | inl e ↦ rw e (fail-Fits id s h)
  | inr e ↦ rw e (finish-Fits id later (publish waiting s) (publish-Held id waiting s h))
]

take_tip-Fits :
    (id : ℕ) (later same signs : Bool) (s : Session)
    → Held id s
    → Fits 0 (take_tip id later same signs s)
unfolding take_tip
take_tip-Fits id later false signs s h = finish-Fits id later s h
take_tip-Fits id later true false s h =
    fail-Fits id (publish signing s) (publish-Held id signing s h)
take_tip-Fits id later true true s h =
    guarded-Fits id later (publish signing s) (λ t. wait_for id submission (publish submitting t))
      (publish-Held id signing s h)
      λ h'.
        wait_for-Fits id submission (publish submitting (publish signing s))
          (publish-Held id submitting (publish signing s) h')

take_submission-Fits :
    (id : ℕ) (later same : Bool) (s : Session)
    → Held id s
    → Fits 0 (take_submission id later same s)
unfolding take_submission
take_submission-Fits id later true s h =
    finish-Fits id later (publish accepted s) (publish-Held id accepted s h)
take_submission-Fits id later false s h = fail-Fits id s h

resume-Fits :
    (can later : Bool) (id : ℕ) (wait : Wait) (outcome : Outcome) (s : Session)
    → Held id s
    → Fits 0 (resume can later id wait outcome s)
unfolding resume
resume-Fits can later id candidates (coins n) s h =
    guarded-Fits id can s (take_batch id later n) h (take_batch-Fits id later n s)
resume-Fits can later id (preparation batch) (prepared eligible has) s h =
    guarded-Fits id can s (take_prepared id later batch eligible has) h
      (take_prepared-Fits id later batch eligible has s)
resume-Fits can later id tip (at_tip same signs) s h =
    guarded-Fits id can s (take_tip id later same signs) h (take_tip-Fits id later same signs s)
resume-Fits can later id submission (submitted same) s h =
    guarded-Fits id can s (take_submission id later same) h (take_submission-Fits id later same s)
resume-Fits can later id wait outcome s h = fail-Fits id s h

-- A tick that is taken out of those that wait is at hand.
taken-Held :
    (s : Session) (before after : List Tick) (id : ℕ) (wait : Wait)
    → s.flight ≡ before ++ (record { id = id; wait = wait } ∷ after)
    → Fits 0 s
    → Held id (record s { flight = before ++ after })
taken-Held s before after id wait e f =
    let t : Tick = record { id = id; wait = wait } in
    let (old_before, (le, old_after)) =
      All-split (λ t. t.id ≤ s.generation) before (t ∷ after) (rw e at f.ticks_old) in
    (
      record {
        single = omega (
          arith,
          f.single,
          ap (waiting_ticks s.generation) e,
          waiting_ticks-append s.generation before (t ∷ after),
          waiting_ticks-append s.generation before after,
        );
        ticks_old = All-append (λ t. t.id ≤ s.generation) before after old_before old_after;
        timer_old = f.timer_old;
      },
      le,
    )

fired-Held :
    (s : Session) (id : ℕ) → s.timer ≡ some id → Fits 0 s → Held id (record s { timer = none })
fired-Held s id e f = (
  record {
    single = omega (arith, f.single, ap (timers s.generation) e);
    ticks_old = f.ticks_old;
    timer_old = tt;
  },
  rw e at f.timer_old,
)

no_timer : (g : ℕ) (t : Option ℕ) → NotAbove g t → timers (g + 1) t ≡ 0
no_timer g none h = refl
no_timer g (some id) h = ground arith

older_timer : (g : ℕ) (t : Option ℕ) → NotAbove g t → NotAbove (g + 1) t
older_timer g none h = tt
older_timer g (some id) h = omega (arith, h)

bit_refl : (g : ℕ) → bit (g == g) ≡ 1
bit_refl g = ground arith

start-Fits : (can later : Bool) (s : Session) → Fits 0 s → Fits 0 (start can later s)
unfolding start
start-Fits can later s f = elim (Bool-cases (s.active || not can)) [
  | inl e ↦ rw e f
  | inr e ↦ rw e (
      tick-Fits (s.generation + 1) later
        (record s { active = true; offset = 0; generation = s.generation + 1 })
        (
          record {
            single = omega (
              arith,
              none_above s.generation s.flight f.ticks_old,
              no_timer s.generation s.timer f.timer_old,
              bit_refl (s.generation + 1),
            );
            ticks_old = ticks_older s.generation s.flight f.ticks_old;
            timer_old = older_timer s.generation s.timer f.timer_old;
          },
          omega arith,
        ))
]

Step-Fits : (s t : Session) → Step s t → Fits 0 s → Fits 0 t
Step-Fits s t (starts can later _) f = start-Fits can later s f
Step-Fits s t (stops _) f = stop-Fits 0 s f
Step-Fits s t (fires can _ id e) f =
    tick-Fits id can (record s { timer = none }) (fired-Held s id e f)
Step-Fits s t (resumes can later _ before after id wait outcome e) f =
    resume-Fits can later id wait outcome (record s { flight = before ++ after })
      (taken-Held s before after id wait e f)

Reachable-Fits : (s : Session) → Reachable s → Fits 0 s
Reachable-Fits s at_first = record { single = omega arith; ticks_old = tt; timer_old = tt }
Reachable-Fits s (after_step r _ h step) = Step-Fits r s step (Reachable-Fits r h)

-- In every state that a session can reach, at most one tick of the current generation waits for an
-- answer or for the timer, and none does where the session is not active.
pub single_tick : (s : Session) → Reachable s → live s ≤ bit s.active
single_tick s h = let f = Reachable-Fits s h in omega (arith, f.single)
