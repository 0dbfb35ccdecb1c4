-- ===== src/Plugin/Config/Store/Versions.antt =====
-- What one call of `update` or `rollback` of src/langharness_plugin/config_store.py does to the
-- versions of a store.
use Prim.Native.String.{String}
use langharness.Prelude.{
  ℕ, ◌+◌, ◌≤◌, ◌≡◌, refl, ap, List, [], ◌∷◌, ◌++◌, Option, none, some, ◌==◌, nat_eq, nat_beq_iff,
  string_eq, find, All, arith, inl, inr, Option-cases, ok, bind,
}
use langharness.Plugin.Config.Secrets.{Plugins}
use langharness.Plugin.Config.Store.{
  Entry, PluginConfigStore, found, version, current, plugins, append, write,
}

-- No version is numbered above the current one.
abbrev pub IsHistory : PluginConfigStore → Type 0
IsHistory s = All (λ e. e.seq ≤ s.payload.current) s.payload.history

pub find_old :
    (n : ℕ) (es : List Entry) (x e : Entry)
    → find (λ e. e.seq == n) es ≡ some e
    → find (λ e. e.seq == n) (es ++ x ∷ []) ≡ some e
find_old n [] x e h = cc
find_old n (y ∷ es) x e h = ground (arith, find_old n es x e)

pub find_new :
    (n : ℕ) (es : List Entry) (x : Entry)
    → All (λ e. e.seq ≤ n) es
    → x.seq ≡ n + 1
    → find (λ e. e.seq == n + 1) (es ++ x ∷ []) ≡ some x
find_new n [] x h q = ground (arith, nat_beq_iff x.seq (n + 1))
find_new n (y ∷ es) x (le, h) q = ground (arith, nat_beq_iff y.seq (n + 1), find_new n es x h q)

pub All-snoc_le :
    (n : ℕ) (es : List Entry) (x : Entry)
    → All (λ e. e.seq ≤ n) es
    → x.seq ≡ n + 1
    → All (λ e. e.seq ≤ n + 1) (es ++ x ∷ [])
All-snoc_le n [] x h q = (omega arith, tt)
All-snoc_le n (y ∷ es) x (le, h) q = (omega arith, All-snoc_le n es x h q)

module _ (config : Option Plugins) (action actor : String) (target : Option ℕ) (now : String) where
  pub append-IsHistory :
      (s : PluginConfigStore)
      → IsHistory s
      → IsHistory ((append config action actor target now s).1)
  unfolding append write
  append-IsHistory s h = All-snoc_le s.payload.current s.payload.history _ h refl

  -- An older version is found as before.
  pub version-append :
      (n : ℕ) (e : Entry) (s : PluginConfigStore)
      → version n s ≡ ok e
      → version n ((append config action actor target now s).1) ≡ ok e
  unfolding version append write
  version-append n e s h = elim (Option-cases (find (λ x. x.seq == n) s.payload.history)) [
    | inl q ↦ cc (h, ap found q)
    | inr (x, q) ↦ cc (ap found (find_old n s.payload.history _ x q), h, ap found q)
  ]

  -- The new version is found under its number.
  pub version-append_new :
      (s : PluginConfigStore)
      → IsHistory s
      → version (s.payload.current + 1) ((append config action actor target now s).1)
        ≡ ok (record {
          seq = s.payload.current + 1;
          ts = now;
          action = action;
          actor = actor;
          target_seq = target;
          config = config;
        })
  unfolding version append write
  version-append_new s h = ap found (find_new s.payload.current s.payload.history _ h refl)

  -- It is the current one.
  pub plugins-append :
      (s : PluginConfigStore)
      → IsHistory s
      → plugins ((append config action actor target now s).1)
        ≡ ok (elim config as (λ _. Plugins) [ none ↦ [] | some p ↦ p ])
  unfolding plugins current append write
  plugins-append s h =
      ap (λ r. bind r (λ e. ok (elim e.config as (λ _. Plugins) [ none ↦ [] | some p ↦ p ])))
        (version-append_new s h)
