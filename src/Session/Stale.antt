-- ===== src/Session/Stale.antt =====
-- What arrives for a session that was stopped changes nothing.
use organic_web_wallet.Prelude.{ℕ, ◌+◌, ◌<◌, ◌≡◌, refl, Bool, false, ◌&&◌, arith, ◌==◌}
use organic_web_wallet.Session.{
  Wait, candidates, tip, submission, preparation, Session, Outcome, coins, prepared, at_tip,
  submitted, guarded, fail, take_batch, take_prepared, take_tip, take_submission, resume, tick,
  stop, publish,
}

and_false : (a b : Bool) → b ≡ false → (a && b) ≡ false
and_false a b h = ground arith

guarded_stale :
    (id : ℕ) (can : Bool) (s : Session) (rest : Session → Session)
    → (s.generation == id) ≡ false
    → guarded id can s rest ≡ s
unfolding guarded
guarded_stale id can s rest e = rw (and_false s.active (s.generation == id) e) refl

fail_stale : (id : ℕ) (s : Session) → (s.generation == id) ≡ false → fail id s ≡ s
unfolding fail
fail_stale id s e = rw e refl

resume_stale :
    (can later : Bool) (id : ℕ) (wait : Wait) (outcome : Outcome) (s : Session)
    → (s.generation == id) ≡ false
    → resume can later id wait outcome s ≡ s
unfolding resume
resume_stale can later id candidates (coins n) s e =
    guarded_stale id can s (take_batch id later n) e
resume_stale can later id (preparation batch) (prepared eligible has) s e =
    guarded_stale id can s (take_prepared id later batch eligible has) e
resume_stale can later id tip (at_tip same signs) s e =
    guarded_stale id can s (take_tip id later same signs) e
resume_stale can later id submission (submitted same) s e =
    guarded_stale id can s (take_submission id later same) e
resume_stale can later id wait outcome s e = fail_stale id s e

tick_stale : (id : ℕ) (can : Bool) (s : Session) → (s.generation == id) ≡ false → tick id can s ≡ s
unfolding tick
tick_stale id can s e = rw (and_false s.active (s.generation == id) e) (rw e refl)

-- After a stop, an answer or a timer of any tick up to then changes nothing: nothing is published, no
-- block is submitted, and no other tick begins.
pub stop_silences :
    (s : Session) (id : ℕ) (can later : Bool) (wait : Wait) (outcome : Outcome)
    → id < s.generation + 1
    → (resume can later id wait outcome (stop s) ≡ stop s) × (tick id can (stop s) ≡ stop s)
unfolding stop publish
stop_silences s id can later wait outcome older =
    let e : (s.generation + 1 == id) ≡ false = ground arith in
    (resume_stale can later id wait outcome (stop s) e, tick_stale id can (stop s) e)
