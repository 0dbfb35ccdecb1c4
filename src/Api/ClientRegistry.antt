-- ===== src/Api/ClientRegistry.antt =====
-- `ClientRegistry` of src/langharness_api/common/client_registry.py: the attached clients, and the
-- timer that shuts the server down once the last one has gone. The event loop is a step relation:
-- a method call, or the end of the grace period of a timer that was not cancelled.
use langharness.Prelude.{
  ℕ, ◌+◌, Bool, true, false, not, ◌&&◌, ◌||◌, ◌≡◌, refl, List, [], ◌∷◌, ◌==◌, nat_eq, nat_beq_iff,
  if◌then◌else◌, contains, filter, length, is_nonempty, arith, inl, inr, ◌⊎◌, Bool-cases,
}
pub mod Grace

-- The task behind `_timer`.
pub data Timer : Type 0 where
  absent : Timer
  -- asleep for the grace period
  pending : Timer
  done : Timer

pub record ClientRegistry : Type 0 where
  pub clients : List ℕ
  pub ready : Bool
  pub enabled : Bool
  -- `_shutdown_callback is not None`
  pub has_callback : Bool
  pub timer : Timer
  -- how often the callback ran
  pub shutdowns : ℕ

abbrev pub is_pending : Timer → Bool
is_pending pending = true
is_pending _ = false

-- `set.add`
abbrev pub add_client : ℕ → List ℕ → List ℕ
add_client c cs = if contains c cs then cs else c ∷ cs

-- `set.discard`
abbrev pub discard_client : ℕ → List ℕ → List ℕ
discard_client c = filter (λ x. not (x == c))

unfoldable pub set_shutdown_callback : ClientRegistry → ClientRegistry
set_shutdown_callback r = record r { has_callback = true }

unfoldable pub set_enabled : Bool → ClientRegistry → ClientRegistry
set_enabled enabled r = record r { enabled = enabled }

unfoldable pub cancel_timer : ClientRegistry → ClientRegistry
cancel_timer r = record r { timer = absent }

unfoldable pub schedule_shutdown : ClientRegistry → ClientRegistry
schedule_shutdown r =
    if not r.ready || not r.enabled || not r.has_callback
    then r
    else (if is_pending r.timer then r else record r { timer = pending })

unfoldable pub mark_ready : ClientRegistry → ClientRegistry
unfolding schedule_shutdown
mark_ready r =
    let r' = record r { ready = true } in
    if is_nonempty r'.clients then r' else schedule_shutdown r'

unfoldable pub attach : ℕ → ClientRegistry → ClientRegistry
unfolding cancel_timer
attach client r = cancel_timer (record r { clients = add_client client r.clients })

unfoldable pub detach : ℕ → ClientRegistry → ClientRegistry
unfolding schedule_shutdown
detach client r =
    let r' = record r { clients = discard_client client r.clients } in
    if is_nonempty r'.clients then r' else schedule_shutdown r'

unfoldable pub active_count : ClientRegistry → ℕ
active_count r = length r.clients

-- `_run_timer` after its sleep: the task is done, and the callback ran if the test passed.
unfoldable pub run_timer : ClientRegistry → ClientRegistry
run_timer r =
    if not (is_nonempty r.clients) && r.ready && r.enabled
    then record r { timer = done; shutdowns = r.shutdowns + 1 }
    else record r { timer = done }

-- What can happen next.
pub data Step : ClientRegistry → ClientRegistry → Type 0 where
  set_callback_step : (r : ClientRegistry) → Step r (set_shutdown_callback r)
  set_enabled_step : (r : ClientRegistry) (b : Bool) → Step r (set_enabled b r)
  ready_step : (r : ClientRegistry) → Step r (mark_ready r)
  attach_step : (r : ClientRegistry) (c : ℕ) → Step r (attach c r)
  detach_step : (r : ClientRegistry) (c : ℕ) → Step r (detach c r)
  elapse_step : (r : ClientRegistry) → r.timer ≡ pending → Step r (run_timer r)

pub data Reach (r : ClientRegistry) : ClientRegistry → Type 0 where
  here : Reach r r
  next : {s t : ClientRegistry} → Reach r s → Step s t → Reach r t

-- `__init__`
abbrev pub initial : ClientRegistry
initial = record {
  clients = [];
  ready = false;
  enabled = false;
  has_callback = false;
  timer = absent;
  shutdowns = 0;
}

-- A timer runs only while no client is attached, after the server is ready, and with a callback.
pub record IsSafe (r : ClientRegistry) : Type 0 where
  pub idle : r.timer ≡ pending → is_nonempty r.clients ≡ false
  pub started : r.timer ≡ pending → r.ready ≡ true
  pub callable : r.timer ≡ pending → r.has_callback ≡ true

pub discard_empty :
    (c : ℕ) (cs : List ℕ) → is_nonempty cs ≡ false → is_nonempty (discard_client c cs) ≡ false
discard_empty c [] h = refl
discard_empty c (x ∷ cs) h = cc

Step-IsSafe : {r s : ClientRegistry} → Step r s → IsSafe r → IsSafe s
unfolding set_shutdown_callback set_enabled mark_ready attach detach run_timer
Step-IsSafe (set_callback_step r) h = record {
  idle = h.idle;
  started = h.started;
  callable = λ e. refl;
}
Step-IsSafe (set_enabled_step r b) h = record {
  idle = h.idle;
  started = h.started;
  callable = h.callable;
}
Step-IsSafe (ready_step r) h = record {
  idle = λ e. ground (arith, h.idle);
  started = λ e. ground (arith, h.started);
  callable = λ e. ground (arith, h.callable);
}
Step-IsSafe (attach_step r c) h = record {
  idle = λ e. ground arith;
  started = λ e. ground arith;
  callable = λ e. ground arith;
}
Step-IsSafe (detach_step r c) h = record {
  idle = λ e. ground (arith, h.idle, discard_empty c r.clients);
  started = λ e. ground (arith, h.started);
  callable = λ e. ground (arith, h.callable);
}
Step-IsSafe (elapse_step r e) h = record {
  idle = λ e. ground arith;
  started = λ e. ground arith;
  callable = λ e. ground arith;
}

initial-IsSafe : IsSafe initial
initial-IsSafe = record { idle = λ e. refl; started = λ e. cc; callable = λ e. cc }

-- In every order of calls and timers, a running timer means that no client is attached, the server
-- is ready and a callback is set.
pub Reach-IsSafe : {r : ClientRegistry} → Reach initial r → IsSafe r
Reach-IsSafe here = initial-IsSafe
Reach-IsSafe (next p st) = Step-IsSafe st (Reach-IsSafe p)

-- What held when the callback ran.
pub record MayShutDown (r : ClientRegistry) : Type 0 where
  pub idle : is_nonempty r.clients ≡ false
  pub ready : r.ready ≡ true
  pub enabled : r.enabled ≡ true
  pub callable : r.has_callback ≡ true
  pub waited : r.timer ≡ pending

-- The callback runs only at the end of a grace period, with no client attached, on a server that
-- is ready with auto-shutdown enabled; it is set by then, so the assertion before it holds. Every
-- step else leaves it alone.
pub Reach-MayShutDown :
    {r s : ClientRegistry}
    → Reach initial r
    → Step r s
    → (s.shutdowns ≡ r.shutdowns) ⊎ ((s.shutdowns ≡ r.shutdowns + 1) × MayShutDown r)
unfolding set_shutdown_callback set_enabled mark_ready attach detach run_timer
Reach-MayShutDown p (set_callback_step r) = inl refl
Reach-MayShutDown p (set_enabled_step r b) = inl refl
Reach-MayShutDown p (ready_step r) = inl (ground arith)
Reach-MayShutDown p (attach_step r c) = inl refl
Reach-MayShutDown p (detach_step r c) = inl (ground arith)
Reach-MayShutDown p (elapse_step r e) =
    let safe = Reach-IsSafe p in
    let idle = safe.idle e in
    let started = safe.started e in
    elim (Bool-cases r.enabled) [
      | inl on ↦ inr (
        ground arith,
        record {
          idle = idle;
          ready = started;
          enabled = on;
          callable = safe.callable e;
          waited = e;
        },
      )
      | inr off ↦ inl (ground arith)
    ]
