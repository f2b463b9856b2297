-- ===== src/Session/Examples.antt =====
-- A session that is started, stopped and started again while its first tick still waits.
use organic_web_wallet.Prelude.{◌≤◌, ◌≡◌, true, arith}
use organic_web_wallet.Session.{
  Session, candidates, coins, start, stop, resume, tick, new_session, Reachable, at_first,
  after_step, starts, stops, publish, wait_for,
}
use organic_web_wallet.Session.Single.{live, bit}
use organic_web_wallet.Session.Steps.{single_tick}
use organic_web_wallet.Session.Stale.{stop_silences}

abbrev once : Session
once = start true true new_session

abbrev twice : Session
twice = start true true (stop once)

twice-Reachable : Reachable twice
twice-Reachable =
    after_step (stop once) twice
      (after_step once (stop once)
        (after_step new_session once at_first (starts true true new_session)) (stops once))
      (starts true true (stop once))

single_tick_example : live twice ≤ bit (twice.active)
single_tick_example = single_tick twice twice-Reachable

stop_silences_example :
    (resume true true 1 candidates (coins 3) (stop once) ≡ stop once)
    × (tick 1 true (stop once) ≡ stop once)
unfolding start tick wait_for publish
stop_silences_example = stop_silences once 1 true true candidates (coins 3) (omega arith)
