-- ===== src/Api/Tests.antt =====
-- The theorems on src/langharness_api/ at concrete runs.
use langharness.Prelude.{
  ◌+◌, ◌≤◌, ◌<◌, ◌≡◌, refl, [], ◌∷◌, none, some, true, length, filter, ok, arith, ◌⊎◌, ◌↔◌, nat_eq,
}
use langharness.Api.ClientRegistry.{
  ClientRegistry, absent, ready_step, attach_step, here, next, initial, MayShutDown,
  Reach-MayShutDown, Step, detach_step, set_shutdown_callback, attach, detach, run_timer,
  mark_ready,
}
use langharness.Api.ClientRegistry.Grace.{
  still, then_callback, then_detached, arrived, then_step, last_detach_shuts_down,
}
use langharness.Api.RateLimit.Window.{run_window, run_admits}
use langharness.Api.RateLimit.{dependency, run, times_of, in_window, empty}

Reach-MayShutDown_example :
    let r = attach 1 initial in
    ((mark_ready r).shutdowns ≡ r.shutdowns)
    ⊎ (((mark_ready r).shutdowns ≡ r.shutdowns + 1) × MayShutDown r)
Reach-MayShutDown_example =
    Reach-MayShutDown (next here (attach_step initial 1)) (ready_step (attach 1 initial))

abbrev one_client : ClientRegistry
one_client = record {
  clients = 1 ∷ [];
  ready = true;
  enabled = true;
  has_callback = true;
  timer = absent;
  shutdowns = 0;
}

-- The last client detaches, the callback is set again, and an unknown client detaches.
abbrev waited : ClientRegistry
waited = detach 7 (set_shutdown_callback (detach 1 one_client))

-- A second client attaches, and a third one comes and goes.
abbrev visited : ClientRegistry
visited = detach 3 (attach 3 (attach 2 waited))

last_detach_shuts_down_example :
    Step waited (run_timer waited)
    × (waited.shutdowns ≡ 0)
    × ((run_timer waited).shutdowns ≡ 1)
    × (visited.shutdowns ≡ 0)
unfolding attach detach set_shutdown_callback
last_detach_shuts_down_example =
    last_detach_shuts_down 1 2 one_client waited visited refl refl refl refl
      (then_detached 7 (then_callback still))
      (then_step (then_step arrived (attach_step (attach 2 waited) 3) refl)
        (detach_step (attach 3 (attach 2 waited)) 3) refl)

run_window_example :
    length (
      filter
        (in_window 10 9)
        (times_of "a" (run ((some "a", 5) ∷ (some "a", 6) ∷ []) (empty 1 10) []).1))
    ≤ 1
run_window_example =
    run_window 1 10 ((some "a", 5) ∷ (some "a", 6) ∷ []) (omega arith, (omega arith, tt)) 9
      (omega arith) "a"

run_admits_example :
    ((dependency none 9 (run ((some "a", 5) ∷ []) (empty 1 10) []).0).0 ≡ ok tt) ↔ (
      length
        (filter (in_window 10 9) (times_of "unknown" (run ((some "a", 5) ∷ []) (empty 1 10) []).1))
      < 1)
run_admits_example = run_admits 1 10 ((some "a", 5) ∷ []) (omega arith, tt) 9 (omega arith) none
