-- ===== src/Api/ClientRegistry/Grace.antt =====
-- The grace period of src/langharness_api/common/client_registry.py: what the calls between the last
-- detach and the end of the timer lead to.
use mathlib.Core.Path.{◌∙◌}
use langharness.Prelude.{
  ℕ, ◌+◌, true, false, ◌≡◌, refl, List, [], ◌∷◌, nat_eq, contains, is_nonempty, arith,
}
use langharness.Api.ClientRegistry.{
  ClientRegistry, pending, discard_client, discard_empty, set_shutdown_callback, set_enabled,
  mark_ready, attach, detach, run_timer, cancel_timer, schedule_shutdown, Step, set_callback_step,
  set_enabled_step, ready_step, attach_step, detach_step, elapse_step,
}

contains-nonempty : (c : ℕ) (cs : List ℕ) → contains c cs ≡ true → is_nonempty cs ≡ true
contains-nonempty c [] h = cc
contains-nonempty c (x ∷ cs) h = refl

-- Calls of a grace period in which no client attaches and auto-shutdown stays on.
pub data Quiet (r : ClientRegistry) : ClientRegistry → Type 0 where
  still : Quiet r r
  then_callback : {s : ClientRegistry} → Quiet r s → Quiet r (set_shutdown_callback s)
  then_enabled : {s : ClientRegistry} → Quiet r s → Quiet r (set_enabled true s)
  then_ready : {s : ClientRegistry} → Quiet r s → Quiet r (mark_ready s)
  then_detached : {s : ClientRegistry} (c : ℕ) → Quiet r s → Quiet r (detach c s)

-- Steps of any kind, timers included, after each of which the client is attached.
pub data Attended (d : ℕ) (r : ClientRegistry) : ClientRegistry → Type 0 where
  arrived : Attended d r r
  then_step :
      {s t : ClientRegistry}
      → Attended d r s
      → Step s t
      → contains d t.clients ≡ true
      → Attended d r t

-- The server waits for the end of the grace period.
record IsWaiting (n : ℕ) (r : ClientRegistry) : Type 0 where
  waiting : r.timer ≡ pending
  idle : is_nonempty r.clients ≡ false
  ready : r.ready ≡ true
  enabled : r.enabled ≡ true
  callable : r.has_callback ≡ true
  unchanged : r.shutdowns ≡ n

Quiet-IsWaiting : {n : ℕ} {r s : ClientRegistry} → Quiet r s → IsWaiting n r → IsWaiting n s
unfolding set_shutdown_callback set_enabled mark_ready detach schedule_shutdown
Quiet-IsWaiting still w = w
Quiet-IsWaiting (then_callback q) w =
    let v = Quiet-IsWaiting q w in
    record {
      waiting = v.waiting;
      idle = v.idle;
      ready = v.ready;
      enabled = v.enabled;
      callable = refl;
      unchanged = v.unchanged;
    }
Quiet-IsWaiting (then_enabled q) w =
    let v = Quiet-IsWaiting q w in
    record {
      waiting = v.waiting;
      idle = v.idle;
      ready = v.ready;
      enabled = refl;
      callable = v.callable;
      unchanged = v.unchanged;
    }
Quiet-IsWaiting (then_ready {s} q) w =
    let v = Quiet-IsWaiting q w in
    record {
      waiting = ground (arith, v.waiting);
      idle = ground (arith, v.idle);
      ready = ground arith;
      enabled = ground (arith, v.enabled);
      callable = ground (arith, v.callable);
      unchanged = ground (arith, v.unchanged);
    }
Quiet-IsWaiting (then_detached {s} c q) w =
    let v = Quiet-IsWaiting q w in
    record {
      waiting = ground (arith, v.waiting);
      idle = ground (arith, discard_empty c s.clients v.idle);
      ready = ground (arith, v.ready);
      enabled = ground (arith, v.enabled);
      callable = ground (arith, v.callable);
      unchanged = ground (arith, v.unchanged);
    }

-- A step after which a client is attached does not run the callback.
attended-Step :
    (d : ℕ) {s t : ClientRegistry}
    → Step s t
    → contains d t.clients ≡ true
    → t.shutdowns ≡ s.shutdowns
unfolding set_shutdown_callback set_enabled mark_ready attach detach run_timer schedule_shutdown
    cancel_timer
attended-Step d (set_callback_step r) h = refl
attended-Step d (set_enabled_step r b) h = refl
attended-Step d (ready_step r) h = ground arith
attended-Step d (attach_step r c) h = refl
attended-Step d (detach_step r c) h = ground arith
attended-Step d (elapse_step r e) h = ground (arith, contains-nonempty d r.clients)

Attended-shutdowns : {d : ℕ} {r t : ClientRegistry} → Attended d r t → t.shutdowns ≡ r.shutdowns
Attended-shutdowns arrived = refl
Attended-shutdowns {d} (then_step p step there) = attended-Step d step there ∙ Attended-shutdowns p

detach-IsWaiting :
    (c : ℕ) (r : ClientRegistry)
    → r.ready ≡ true
    → r.enabled ≡ true
    → r.has_callback ≡ true
    → is_nonempty (discard_client c r.clients) ≡ false
    → IsWaiting r.shutdowns (detach c r)
unfolding detach schedule_shutdown
detach-IsWaiting c r ready enabled callable last = record {
  waiting = ground arith;
  idle = ground arith;
  ready = ground arith;
  enabled = ground arith;
  callable = ground arith;
  unchanged = ground arith;
}

-- When the last client detaches from a ready server with auto-shutdown enabled and a callback set,
-- then after any calls by which no client attaches and auto-shutdown stays on, the grace period can
-- still end, and its end runs the callback, which did not run before; and if a client attaches
-- after these calls, the callback does not run as long as that client is attached, whatever is
-- called and whichever timer ends.
pub last_detach_shuts_down :
    (c d : ℕ) (r s t : ClientRegistry)
    → r.ready ≡ true
    → r.enabled ≡ true
    → r.has_callback ≡ true
    → is_nonempty (discard_client c r.clients) ≡ false
    → Quiet (detach c r) s
    → Attended d (attach d s) t
    → Step s (run_timer s)
      × (s.shutdowns ≡ r.shutdowns)
      × ((run_timer s).shutdowns ≡ r.shutdowns + 1)
      × (t.shutdowns ≡ r.shutdowns)
unfolding run_timer attach cancel_timer
last_detach_shuts_down c d r s t ready enabled callable last quiet attended =
    let w = Quiet-IsWaiting quiet (detach-IsWaiting c r ready enabled callable last) in
    (
      elapse_step s w.waiting,
      w.unchanged,
      ground (arith, w.idle, w.ready, w.enabled, w.unchanged),
      Attended-shutdowns attended ∙ w.unchanged,
    )
