-- ===== src/Api/RateLimit/Window.antt =====
-- What the sliding window of src/langharness_api/plugins/rate_limit/rate_limit.py admits.
use langharness.Prelude.{
  ℕ, ◌≤◌, ◌<◌, String, false, ◌≡◌, refl, List, [], ◌∷◌, ◌++◌, Option, ok, err, Error, ◌==◌,
  string_eq, if◌then◌else◌, leb, length, filter, filter-append, length-append, length-filter,
  append-nil, ◌⊎◌, ◌↔◌, arith, inl, inr, Bool-cases, ap, sym, ◌∙◌,
}
use langharness.Prelude.Dict.{insert, lookup-insert}
use mathlib.Core.Path.{subst, subst⁻¹}
use text.Mathlib.TextEquality.{eq_iff}
use langharness.Api.RateLimit.{
  RateLimiter, hits_of, in_window, client_of, dependency, run, times_of, IsMonotonic, latest, empty,
}

times_of-snoc :
    (client c : String) (t : ℕ) (log : List (String × ℕ))
    → times_of client (log ++ (c, t) ∷ [])
      ≡ times_of client log ++ (if c == client then t ∷ [] else [])
times_of-snoc client c t [] = ground arith
times_of-snoc client c t ((d, u) ∷ log) = ground (arith, times_of-snoc client c t log)

-- An old reading that has left the window stays outside.
filter_later :
    (w m n : ℕ) (xs : List ℕ)
    → m ≤ n
    → filter (in_window w n) (filter (in_window w m) xs) ≡ filter (in_window w n) xs
filter_later w m n [] le = refl
filter_later w m n (x ∷ xs) le = ground (arith, filter_later w m n xs le)

filter_later_le :
    (w m n : ℕ) (xs : List ℕ)
    → m ≤ n
    → length (filter (in_window w n) xs) ≤ length (filter (in_window w m) xs)
filter_later_le w m n [] le = omega arith
filter_later_le w m n (x ∷ xs) le = ground (arith, filter_later_le w m n xs le)

-- From the reading `last` on, what is kept of a client counts like all its admitted calls, and no
-- window holds more than the limit.
record IsLimited (last : ℕ) (r : RateLimiter) (log : List (String × ℕ)) : Type 0 where
  kept :
      (client : String) (now : ℕ)
      → last ≤ now
      → filter (in_window r.window_seconds now) (hits_of client r)
        ≡ filter (in_window r.window_seconds now) (times_of client log)
  bounded :
      (client : String) (now : ℕ)
      → last ≤ now
      → length (filter (in_window r.window_seconds now) (times_of client log)) ≤ r.limit

hits_of-insert :
    (k c : String) (v : List ℕ) (r : RateLimiter)
    → hits_of c (record r { hits = insert k v r.hits }) ≡ (if k == c then v else hits_of c r)
hits_of-insert k c v r = ground (arith, lookup-insert k c v r.hits)

hits_of-insert_self :
    (k : String) (v : List ℕ) (r : RateLimiter)
    → hits_of k (record r { hits = insert k v r.hits }) ≡ v
hits_of-insert_self k v r = ground (arith, hits_of-insert k k v r, eq_iff k k)

module _ (host : Option String) (last now : ℕ) (r : RateLimiter) (log : List (String × ℕ))
    (le : last ≤ now) (inv : IsLimited last r log) where
  abbrev fresh_hits : List ℕ
  fresh_hits = filter (in_window r.window_seconds now) (hits_of (client_of host) r)

  -- What a window that ends later keeps of the fresh hits are the admitted calls in it.
  fresh_later :
      (n : ℕ)
      → now ≤ n
      → filter (in_window r.window_seconds n) fresh_hits
        ≡ filter (in_window r.window_seconds n) (times_of (client_of host) log)
  fresh_later n lt =
      filter_later r.window_seconds now n (hits_of (client_of host) r) lt
      ∙ inv.kept (client_of host) n (omega arith)

  refused-IsLimited :
      IsLimited now (record r { hits = insert (client_of host) fresh_hits r.hits }) log
  refused-IsLimited = record {
    kept = λ c n lt. elim (Bool-cases (client_of host == c)) [
      | inl same ↦
          subst
            (λ k.
              filter (in_window r.window_seconds n)
                (hits_of k (record r { hits = insert (client_of host) fresh_hits r.hits }))
              ≡ filter (in_window r.window_seconds n) (times_of k log))
            ((eq_iff (client_of host) c).0 same)
            (ap (filter (in_window r.window_seconds n))
                (hits_of-insert_self (client_of host) fresh_hits r)
              ∙ fresh_later n lt)
      | inr other ↦
          ap (filter (in_window r.window_seconds n)) (
            hits_of-insert (client_of host) c fresh_hits r
            ∙ ap (λ b. if b then fresh_hits else hits_of c r) other)
          ∙ inv.kept c n (omega arith)
    ];
    bounded = λ c n lt. inv.bounded c n (omega arith);
  }

  abbrev noted : RateLimiter
  noted = record r { hits = insert (client_of host) (fresh_hits ++ now ∷ []) r.hits }

  abbrev longer : List (String × ℕ)
  longer = log ++ (client_of host, now) ∷ []

  times_self : times_of (client_of host) longer ≡ times_of (client_of host) log ++ now ∷ []
  times_self = ground (
    arith,
    times_of-snoc (client_of host) (client_of host) now log,
    eq_iff (client_of host) (client_of host),
  )

  times_other : (c : String) → (client_of host == c) ≡ false → times_of c longer ≡ times_of c log
  times_other c other =
      times_of-snoc c (client_of host) now log
      ∙ (ap (λ b. times_of c log ++ (if b then now ∷ [] else [])) other
          ∙ append-nil (times_of c log))

  noted_kept :
      (n : ℕ)
      → now ≤ n
      → filter (in_window r.window_seconds n) (hits_of (client_of host) noted)
        ≡ filter (in_window r.window_seconds n) (times_of (client_of host) longer)
  noted_kept n lt =
      let inw = in_window r.window_seconds n in
      ap (filter inw) (hits_of-insert_self (client_of host) (fresh_hits ++ now ∷ []) r)
      ∙ (filter-append inw fresh_hits (now ∷ [])
          ∙ (ap (λ xs. xs ++ filter inw (now ∷ [])) (fresh_later n lt)
              ∙ (sym (filter-append inw (times_of (client_of host) log) (now ∷ []))
                  ∙ sym (ap (filter inw) times_self))))

  noted_bounded :
      (n : ℕ)
      → now ≤ n
      → length fresh_hits < r.limit
      → length (filter (in_window r.window_seconds n) (times_of (client_of host) longer)) ≤ r.limit
  noted_bounded n lt room =
      let w = r.window_seconds in
      let old = times_of (client_of host) log in
      let parts =
        ap length
          (ap (filter (in_window w n)) times_self ∙ filter-append (in_window w n) old (now ∷ []))
        ∙ length-append (filter (in_window w n) old) (filter (in_window w n) (now ∷ [])) in
      let shrink = filter_later_le w now n old lt in
      let same = ap length (inv.kept (client_of host) now le) in
      let one = length-filter (in_window w n) (now ∷ []) in omega arith

  admitted-IsLimited : length fresh_hits < r.limit → IsLimited now noted longer
  admitted-IsLimited room = record {
    kept = λ c n lt. elim (Bool-cases (client_of host == c)) [
      | inl same ↦
          subst
            (λ k.
              filter (in_window r.window_seconds n) (hits_of k noted)
              ≡ filter (in_window r.window_seconds n) (times_of k longer))
            ((eq_iff (client_of host) c).0 same) (noted_kept n lt)
      | inr other ↦
          ap (filter (in_window r.window_seconds n)) (
            hits_of-insert (client_of host) c (fresh_hits ++ now ∷ []) r
            ∙ ap (λ b. if b then fresh_hits ++ now ∷ [] else hits_of c r) other)
          ∙ (inv.kept c n (omega arith)
              ∙ ap (filter (in_window r.window_seconds n)) (sym (times_other c other)))
    ];
    bounded = λ c n lt. elim (Bool-cases (client_of host == c)) [
      | inl same ↦
          subst (λ k. length (filter (in_window r.window_seconds n) (times_of k longer)) ≤ r.limit)
            ((eq_iff (client_of host) c).0 same) (noted_bounded n lt room)
      | inr other ↦
          subst⁻¹ (λ xs. length (filter (in_window r.window_seconds n) xs) ≤ r.limit)
            (times_other c other) (inv.bounded c n (omega arith))
    ];
  }

  -- The outcome of one call.
  dependency_cases :
      ((dependency host now r ≡ (ok tt, noted)) × IsLimited now noted longer)
      ⊎ ((dependency host now r
            ≡ (err Error.http_error, record r { hits = insert (client_of host) fresh_hits r.hits }))
          × IsLimited now (record r { hits = insert (client_of host) fresh_hits r.hits }) log)
  unfolding dependency
  dependency_cases = elim (Bool-cases (leb r.limit (length fresh_hits))) [
    | inl full ↦ inr (rw full, refused-IsLimited)
    | inr room ↦ inl (rw room, admitted-IsLimited (ground arith))
  ]

  -- A call is admitted exactly when its window holds fewer admitted calls than the limit.
  dependency-ok_iff :
      ((dependency host now r).0 ≡ ok tt)
      ↔ (length (filter (in_window r.window_seconds now) (times_of (client_of host) log)) < r.limit)
  unfolding dependency
  dependency-ok_iff =
      let same = ap length (inv.kept (client_of host) now le) in
      (λ h. ground arith, λ h. ground arith)

run_admitted :
    (host : Option String) (now : ℕ) (calls : List (Option String × ℕ)) (r r' : RateLimiter)
    (log : List (String × ℕ))
    → dependency host now r ≡ (ok tt, r')
    → run ((host, now) ∷ calls) r log ≡ run calls r' (log ++ (client_of host, now) ∷ [])
unfolding run
run_admitted host now calls r r' log h = ground arith

run_refused :
    (host : Option String) (now : ℕ) (calls : List (Option String × ℕ)) (r r' : RateLimiter)
    (log : List (String × ℕ))
    → dependency host now r ≡ (err Error.http_error, r')
    → run ((host, now) ∷ calls) r log ≡ run calls r' log
unfolding run
run_refused host now calls r r' log h = ground arith

-- The settings, and the invariant at the last reading.
abbrev RunInv : RateLimiter → ℕ → RateLimiter × List (String × ℕ) → Type 0
RunInv r last s =
    (s.0.limit ≡ r.limit) × (s.0.window_seconds ≡ r.window_seconds) × IsLimited last s.0 s.1

run-RunInv :
    (calls : List (Option String × ℕ)) (last : ℕ) (r : RateLimiter) (log : List (String × ℕ))
    → IsMonotonic last calls
    → IsLimited last r log
    → RunInv r (latest last calls) (run calls r log)
run-RunInv [] last r log mono inv = unfold run in (refl, refl, inv)
run-RunInv ((host, now) ∷ calls) last r log mono inv =
    let client = client_of host in
    let hits = filter (in_window r.window_seconds now) (hits_of client r) in
    elim (dependency_cases host last now r log mono.0 inv) [
      | inl (done, inv') ↦
          let r' = record r { hits = insert client (hits ++ now ∷ []) r.hits } in
          let log' = log ++ (client, now) ∷ [] in
          subst⁻¹ (RunInv r (latest now calls)) (run_admitted host now calls r r' log done)
            (run-RunInv calls now r' log' mono.1 inv')
      | inr (done, inv') ↦
          let r' = record r { hits = insert client hits r.hits } in
          subst⁻¹ (RunInv r (latest now calls)) (run_refused host now calls r r' log done)
            (run-RunInv calls now r' log mono.1 inv')
    ]

empty-IsLimited : (limit window_seconds : ℕ) → IsLimited 0 (empty limit window_seconds) []
empty-IsLimited limit window_seconds = record {
  kept = λ client now le. refl;
  bounded = λ client now le. omega arith;
}

module _ (limit window_seconds : ℕ) (calls : List (Option String × ℕ)) (mono : IsMonotonic 0 calls)
    (now : ℕ) (le : latest 0 calls ≤ now) where
  -- After any run of calls on a new limiter, with a clock that does not fall, no window holds more
  -- admitted calls of one client than the limit.
  pub run_window :
      (client : String)
      → length (
          filter
            (in_window window_seconds now)
            (times_of client (run calls (empty limit window_seconds) []).1))
        ≤ limit
  run_window client =
      let r = empty limit window_seconds in
      let (same_limit, same_window, inv) =
        run-RunInv calls 0 r [] mono (empty-IsLimited limit window_seconds) in
      let log = (run calls r []).1 in
      subst (λ w. length (filter (in_window w now) (times_of client log)) ≤ limit) same_window
        (subst
          (λ n.
            length (filter (in_window (run calls r []).0.window_seconds now) (times_of client log))
            ≤ n)
          same_limit (inv.bounded client now le))

  -- After any run of calls on a new limiter, with a clock that does not fall, the next call is
  -- admitted exactly when the window before it holds fewer admitted calls of its client than
  -- the limit: one client's calls never use up another's.
  pub run_admits :
      (host : Option String)
      → ((dependency host now (run calls (empty limit window_seconds) []).0).0 ≡ ok tt) ↔ (
          length (
            filter
              (in_window window_seconds now)
              (times_of (client_of host) (run calls (empty limit window_seconds) []).1))
          < limit)
  run_admits host =
      let r = empty limit window_seconds in
      let s = run calls r [] in
      let (same_limit, same_window, inv) =
        run-RunInv calls 0 r [] mono (empty-IsLimited limit window_seconds) in
      subst
        (λ w.
          ((dependency host now s.0).0 ≡ ok tt)
          ↔ (length (filter (in_window w now) (times_of (client_of host) s.1)) < limit))
        same_window
        (subst
          (λ n. ((dependency host now s.0).0 ≡ ok tt) ↔ (
            length (filter (in_window s.0.window_seconds now) (times_of (client_of host) s.1)) < n))
          same_limit (dependency-ok_iff host (latest 0 calls) now s.0 s.1 le inv))
