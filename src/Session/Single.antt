-- ===== src/Session/Single.antt =====
-- A session never has two ticks under way, whatever the order of its calls, timers and answers.
use organic_web_wallet.Prelude.{
  ℕ, ◌+◌, ◌≤◌, ◌≡◌, refl, inl, inr, Bool, true, false, ◌&&◌, Option, none, some, List, [], ◌∷◌,
  ◌++◌, All, arith, ◌==◌, Bool-cases,
}
use organic_web_wallet.Session.{
  Phase, checking, error, Wait, candidates, Tick, Session, publish, stop, guarded, wait_for, finish,
  fail, tick,
}

abbrev pub bit : Bool → ℕ
bit true = 1
bit false = 0

-- The waiting ticks of a generation, and the timer if it is set for it.
abbrev pub waiting_ticks : ℕ → List Tick → ℕ
waiting_ticks g [] = 0
waiting_ticks g (t ∷ ticks) = bit (t.id == g) + waiting_ticks g ticks

abbrev pub timers : ℕ → Option ℕ → ℕ
timers g none = 0
timers g (some id) = bit (id == g)

abbrev pub live : Session → ℕ
live s = waiting_ticks s.generation s.flight + timers s.generation s.timer

abbrev pub NotAbove : ℕ → Option ℕ → Type 0
NotAbove g none = Unit {0}
NotAbove g (some id) = id ≤ g

-- Besides `more` ticks at hand, at most one is live, and none in a session that is not active.
pub record Fits (more : ℕ) (s : Session) : Type 0 where
  pub single : live s + more ≤ bit s.active
  pub ticks_old : All (λ t. t.id ≤ s.generation) s.flight
  pub timer_old : NotAbove s.generation s.timer

pub none_above :
    (g : ℕ) (ticks : List Tick) → All (λ t. t.id ≤ g) ticks → waiting_ticks (g + 1) ticks ≡ 0
none_above g [] h = refl
none_above g (t ∷ ticks) h = ground (arith, none_above g ticks h.1)

pub ticks_older :
    (g : ℕ) (ticks : List Tick) → All (λ t. t.id ≤ g) ticks → All (λ t. t.id ≤ g + 1) ticks
ticks_older g [] h = tt
ticks_older g (t ∷ ticks) h = (omega arith, ticks_older g ticks h.1)

pub waiting_ticks-append :
    (g : ℕ) (xs ys : List Tick)
    → waiting_ticks g (xs ++ ys) ≡ waiting_ticks g xs + waiting_ticks g ys
waiting_ticks-append g [] ys = omega arith
waiting_ticks-append g (t ∷ xs) ys = omega (arith, waiting_ticks-append g xs ys)

-- A stop makes every tick an old one.
pub stop-Fits : (more : ℕ) (s : Session) → Fits more s → Fits 0 (stop s)
unfolding stop publish
stop-Fits more s f = record {
  single = omega (arith, none_above s.generation s.flight f.ticks_old);
  ticks_old = ticks_older s.generation s.flight f.ticks_old;
  timer_old = tt;
}

publish-Fits : (more : ℕ) (p : Phase) (s : Session) → Fits more s → Fits more (publish p s)
unfolding publish
publish-Fits more p s f = record {
  single = f.single;
  ticks_old = f.ticks_old;
  timer_old = f.timer_old;
}

-- A tick of the id is at hand.
abbrev pub Held : ℕ → Session → Type 0
Held id s = Fits (bit (id == s.generation)) s × (id ≤ s.generation)

pub drop_more : (more : ℕ) (s : Session) → Fits more s → Fits 0 s
drop_more more s f = record {
  single = omega (arith, f.single);
  ticks_old = f.ticks_old;
  timer_old = f.timer_old;
}

pub publish-Held : (id : ℕ) (p : Phase) (s : Session) → Held id s → Held id (publish p s)
unfolding publish
publish-Held id p s (f, le) = (publish-Fits (bit (id == s.generation)) p s f, le)

pub guarded-Fits :
    (id : ℕ) (can : Bool) (s : Session) (rest : Session → Session)
    → Held id s
    → (Held id s → Fits 0 (rest s))
    → Fits 0 (guarded id can s rest)
unfolding guarded
guarded-Fits id true s rest (f, le) k = elim (Bool-cases (s.active && s.generation == id)) [
  | inl e ↦ rw e (k (f, le))
  | inr e ↦ rw e (drop_more (bit (id == s.generation)) s f)
]
guarded-Fits id false s rest (f, le) k = elim (Bool-cases (s.active && s.generation == id)) [
  | inl e ↦ rw e (stop-Fits (bit (id == s.generation)) s f)
  | inr e ↦ rw e (drop_more (bit (id == s.generation)) s f)
]

pub wait_for-Fits : (id : ℕ) (w : Wait) (s : Session) → Held id s → Fits 0 (wait_for id w s)
unfolding wait_for
wait_for-Fits id w s (f, le) = record {
  single = omega (arith, f.single);
  ticks_old = (le, f.ticks_old);
  timer_old = f.timer_old;
}

-- A timer is only set where there is none of this generation.
set_timer-Fits : (id : ℕ) (s : Session) → Held id s → Fits 0 (record s { timer = some id })
set_timer-Fits id s (f, le) = record {
  single = omega (arith, f.single);
  ticks_old = f.ticks_old;
  timer_old = le;
}

pub finish-Fits : (id : ℕ) (can : Bool) (s : Session) → Held id s → Fits 0 (finish id can s)
unfolding finish
finish-Fits id can s h =
    guarded-Fits id can s (λ t. record t { timer = some id }) h (set_timer-Fits id s)

pub fail-Fits : (id : ℕ) (s : Session) → Held id s → Fits 0 (fail id s)
unfolding fail
fail-Fits id s (f, le) = elim (Bool-cases (s.generation == id)) [
  | inl e ↦ rw e (publish-Fits 0 error (stop s) (stop-Fits (bit (id == s.generation)) s f))
  | inr e ↦ rw e (drop_more (bit (id == s.generation)) s f)
]

pub tick-Fits : (id : ℕ) (can : Bool) (s : Session) → Held id s → Fits 0 (tick id can s)
unfolding tick
tick-Fits id can s (f, le) = elim (Bool-cases (s.active && s.generation == id)) [
  | inl e ↦ elim (Bool-cases can) [
    | inl c ↦
        rw (e, c)
          (wait_for-Fits id candidates (publish checking s) (publish-Held id checking s (f, le)))
    | inr c ↦ rw (e, c) (stop-Fits (bit (id == s.generation)) s f)
  ]
  | inr e ↦ elim (Bool-cases (s.generation == id)) [
    | inl g ↦ rw (e, g) (stop-Fits (bit (id == s.generation)) s f)
    | inr g ↦ rw (e, g) (drop_more (bit (id == s.generation)) s f)
  ]
]
