-- ===== src/Session.antt =====
-- scripts/pqwallet/pqstaking-session.js: the session as a state that steps change. A step is a call of
-- `start` or `stop`, the timer, or an awaited answer that a tick goes on with; which one comes next is
-- open. The outcome of an answer says what the code reads from it.
pub mod Single
pub mod Steps
pub mod Stale
mod Examples
use organic_web_wallet.Prelude.{
  ℕ, ◌+◌, ◌-◌, ◌≡◌, Bool, true, false, not, ◌&&◌, ◌||◌, Option, none, some, List, [], ◌∷◌, ◌++◌,
  ltb, leb, ◌==◌, if◌then◌else◌,
}

pub data Phase : Type 0 where
  idle checking waiting signing submitting accepted error : Phase

-- The answer that a tick waits for.
pub data Wait : Type 0 where
  candidates tip submission : Wait
  preparation : ℕ → Wait

pub record Tick : Type 0 where
  pub id : ℕ
  pub wait : Wait

-- `flight` holds the ticks that wait; `log` what was published, the last phase first.
pub record Session : Type 0 where
  pub generation : ℕ
  pub active : Bool
  pub offset : ℕ
  pub flight : List Tick
  pub timer : Option ℕ
  pub log : List Phase

-- A rejected promise; the number of coins that may be staked; the eligible ones, with or without a
-- template; whether the tip is the template's and the signer signs; whether the hash is the block's.
pub data Outcome : Type 0 where
  failed : Outcome
  coins : ℕ → Outcome
  prepared : ℕ → Bool → Outcome
  at_tip : Bool → Bool → Outcome
  submitted : Bool → Outcome

unfoldable pub publish : Phase → Session → Session
publish p s = record s { log = p ∷ s.log }

unfoldable pub stop : Session → Session
unfolding publish
stop s = publish idle (record s { active = false; generation = s.generation + 1; timer = none })

-- `if (!current(id)) return;` before the rest, with the answer of `canSign()`
unfoldable pub guarded : ℕ → Bool → Session → (Session → Session) → Session
unfolding stop
guarded id can s rest =
    if s.active && s.generation == id then (if can then rest s else stop s) else s

unfoldable pub wait_for : ℕ → Wait → Session → Session
wait_for id w s = record s { flight = record { id = id; wait = w } ∷ s.flight }

-- `if (current(id)) timer = setTimeout(…)`
unfoldable pub finish : ℕ → Bool → Session → Session
unfolding guarded
finish id can s = guarded id can s (λ t. record t { timer = some id })

-- The `catch` of a tick.
unfoldable pub fail : ℕ → Session → Session
unfolding stop publish
fail id s = if s.generation == id then publish error (stop s) else s

unfoldable pub tick : ℕ → Bool → Session → Session
unfolding stop publish wait_for
tick id can s =
    if s.active && s.generation == id
    then (if can then wait_for id candidates (publish checking s) else stop s)
    else (if s.generation == id then stop s else s)

unfoldable pub next_offset : ℕ → ℕ → ℕ
next_offset allowed offset = if leb allowed offset then 0 else offset

unfoldable pub batch_size : ℕ → ℕ → ℕ
batch_size allowed offset = if ltb 128 (allowed - offset) then 128 else allowed - offset

unfoldable pub take_batch : ℕ → Bool → ℕ → Session → Session
unfolding next_offset batch_size finish publish wait_for
take_batch id later allowed s =
    let offset = next_offset allowed s.offset in
    let batch = batch_size allowed offset in
    let t = record s { offset = offset + batch } in
    if batch == 0 then finish id later (publish waiting t) else wait_for id (preparation batch) t

unfoldable pub take_prepared : ℕ → Bool → ℕ → ℕ → Bool → Session → Session
unfolding finish publish wait_for fail
take_prepared id later batch eligible has_template s =
    if ltb batch eligible
    then fail id s
    else if has_template
    then wait_for id tip (publish waiting s)
    else finish id later (publish waiting s)

unfoldable pub take_tip : ℕ → Bool → Bool → Bool → Session → Session
unfolding guarded finish publish wait_for fail
take_tip id later same signs s =
    if not same
    then finish id later s
    else if not signs
    then fail id (publish signing s)
    else guarded id later (publish signing s) (λ t. wait_for id submission (publish submitting t))

unfoldable pub take_submission : ℕ → Bool → Bool → Session → Session
unfolding finish publish fail
take_submission id later same s = if same then finish id later (publish accepted s) else fail id s

-- A tick goes on; `can` and `later` are the answers of `canSign()` at its two checks. An answer of
-- another form is an error of the code as well.
unfoldable pub resume : Bool → Bool → ℕ → Wait → Outcome → Session → Session
unfolding guarded fail take_batch take_prepared take_tip take_submission
resume can later id candidates (coins allowed) s = guarded id can s (take_batch id later allowed)
resume can later id (preparation batch) (prepared eligible has_template) s =
    guarded id can s (take_prepared id later batch eligible has_template)
resume can later id tip (at_tip same signs) s = guarded id can s (take_tip id later same signs)
resume can later id submission (submitted same) s = guarded id can s (take_submission id later same)
resume can later id wait outcome s = fail id s

unfoldable pub start : Bool → Bool → Session → Session
unfolding tick
start can later s =
    if s.active || not can
    then s
    else tick (s.generation + 1) later
        (record s { active = true; offset = 0; generation = s.generation + 1 })

pub data Step : Session → Session → Type 0 where
  starts : (can later : Bool) (s : Session) → Step s (start can later s)
  stops : (s : Session) → Step s (stop s)
  fires :
      (can : Bool) (s : Session) (id : ℕ)
      → s.timer ≡ some id
      → Step s (tick id can (record s { timer = none }))
  resumes :
      (can later : Bool) (s : Session) (before after : List Tick) (id : ℕ) (wait : Wait)
      (outcome : Outcome)
      → s.flight ≡ before ++ (record { id = id; wait = wait } ∷ after)
      → Step s (resume can later id wait outcome (record s { flight = before ++ after }))

abbrev pub new_session : Session
new_session = record {
  generation = 0;
  active = false;
  offset = 0;
  flight = [];
  timer = none;
  log = [];
}

pub data Reachable : Session → Type 0 where
  at_first : Reachable new_session
  after_step : (s t : Session) → Reachable s → Step s t → Reachable t
