-- ===== src/Api/RateLimit.antt =====
-- `RateLimitPlugin` of src/langharness_api/plugins/rate_limit/rate_limit.py: a sliding window of
-- admitted calls for each client. Clock readings and the window are whole ticks; the clock is
-- monotonic, so a run hands in readings that never fall.
use langharness.Prelude.{
  ℕ, ◌+◌, ◌≤◌, ◌<◌, String, Bool, false, ◌≡◌, refl, List, [], ◌∷◌, ◌++◌, Option, none, some, ok,
  err, Error, Action, ◌==◌, string_eq, if◌then◌else◌, ltb, leb, length, filter, filter-append,
  length-append, length-filter, append-nil, ◌⊎◌, ◌↔◌, arith, inl, inr, Bool-cases, ap, sym, ◌∙◌,
}
use langharness.Prelude.Dict.{Dict, lookup, insert, lookup-insert}
use mathlib.Core.Path.{subst, subst⁻¹}
use text.Mathlib.TextEquality.{eq_iff}
pub mod Window

pub record RateLimiter : Type 0 where
  pub limit : ℕ
  pub window_seconds : ℕ
  pub hits : Dict String (List ℕ)

-- `self._hits.get(client, [])`
abbrev pub hits_of : String → RateLimiter → List ℕ
hits_of client r = elim (lookup client r.hits) [ none ↦ [] | some hs ↦ hs ]

-- `now - hit < self._window_seconds`
abbrev pub in_window : ℕ → ℕ → ℕ → Bool
in_window window now hit = ltb now (hit + window)

-- `client = request.client.host if request.client else "unknown"`
abbrev pub client_of : Option String → String
client_of none = "unknown"
client_of (some host) = host

-- The dependency of `get_rate_limit_dependency`: it raises the 429, or notes the call.
unfoldable pub dependency : Option String → ℕ → Action RateLimiter (Unit {0})
dependency host now r =
    let client = client_of host in
    let hits = filter (in_window r.window_seconds now) (hits_of client r) in
    if leb r.limit (length hits)
    then (err Error.http_error, record r { hits = insert client hits r.hits })
    else (ok tt, record r { hits = insert client (hits ++ now ∷ []) r.hits })

-- A run of calls with their readings, and the calls that were admitted so far, the latest last.
unfoldable pub run :
    List (Option String × ℕ) → RateLimiter → List (String × ℕ) → RateLimiter × List (String × ℕ)
run [] r admitted = (r, admitted)
run ((host, now) ∷ calls) r admitted =
    let (result, r') = dependency host now r in
    run calls r' (elim result [ ok _ ↦ admitted ++ (client_of host, now) ∷ [] | err _ ↦ admitted ])

-- The readings at which a client was admitted.
abbrev pub times_of : String → List (String × ℕ) → List ℕ
times_of client [] = []
times_of client ((c, t) ∷ log) =
    if c == client then t ∷ times_of client log else times_of client log

-- The readings never fall below `last`.
abbrev pub IsMonotonic : ℕ → List (Option String × ℕ) → Type 0
IsMonotonic last [] = Unit
IsMonotonic last ((host, now) ∷ calls) = (last ≤ now) × IsMonotonic now calls

-- The reading of the last call.
abbrev pub latest : ℕ → List (Option String × ℕ) → ℕ
latest last [] = last
latest last ((host, now) ∷ calls) = latest now calls

abbrev pub empty : ℕ → ℕ → RateLimiter
empty limit window_seconds = record { limit = limit; window_seconds = window_seconds; hits = [] }
