-- ===== src/Core/Sessions/Listing.antt =====
-- What `list_sessions` of src/langharness_core/plugins/sessions/sqlite.py answers.
use mathlib.Core.List.{reverse, reverse-append}
use mathlib.Core.Path.{subst⁻¹, sym, ap, ◌∙◌}
use langharness.Prelude.{
  ℕ, zero, suc, String, List, [], ◌∷◌, ok, bind_eq_ok, ok_inj, ◌==◌, string_eq, filter, ◌≡◌, refl,
  arith, inl, inr, In, In-filter, In-reverse, length, length-append,
}
use langharness.Prelude.Dict.{values}
use langharness.Prelude.Int.{ℤ, pos_part}
use langharness.Prelude.Order.{Order, text_order, sort_by, insert_sorted, In-sort}
use langharness.Prelude.Text.{codes}
use langharness.Core.Sessions.{Session, Sessions, check_id, take, newest_first, list_sessions}

-- The smaller of two numbers.
abbrev pub least : ℕ → ℕ → ℕ
least zero n = 0
least (suc m) zero = 0
least (suc m) (suc n) = suc (least m n)

length-take : {A : Type 0} (n : ℕ) (xs : List A) → length (take n xs) ≡ least n (length xs)
length-take zero xs = refl
length-take (suc n) [] = refl
length-take (suc n) (x ∷ xs) = ap suc (length-take n xs)

take-In : {A : Type 0} (x : A) (n : ℕ) (xs : List A) → In x (take n xs) → In x xs
take-In x zero xs m = absurd m.1
take-In x (suc n) [] m = m
take-In x (suc n) (y ∷ ys) (inl here) = inl here
take-In x (suc n) (y ∷ ys) (inr later) = inr (take-In x n ys later)

length-reverse : {A : Type 0} (xs : List A) → length (reverse xs) ≡ length xs
length-reverse [] = refl
length-reverse (x ∷ xs) =
    ap length (reverse-append (x ∷ []) xs)
    ∙ omega (arith, length-append (reverse xs) (x ∷ []), length-reverse xs)

module _ {K A : Type 0} (o : Order K) (key : A → K) where
  length-insert_sorted : (x : A) (xs : List A) → length (insert_sorted o key x xs) ≡ suc (length xs)
  length-insert_sorted x [] = refl
  length-insert_sorted x (y ∷ ys) = ground (arith, length-insert_sorted x ys)

  length-sort_by : (xs : List A) → length (sort_by o key xs) ≡ length xs
  length-sort_by [] = refl
  length-sort_by (x ∷ xs) =
      omega (arith, length-insert_sorted x (sort_by o key xs), length-sort_by xs)

-- A list of sessions holds as many sessions as the user has, up to the limit, none for a limit
-- below 0, and only rows of the table that are the user's.
pub list_sessions-bounded :
    (user : String) (limit : ℤ) (t : Sessions) (rows : List Session)
    → list_sessions user limit t ≡ ok rows
    → (length rows ≡ least (pos_part limit) (length (filter (λ r. r.user_id == user) (values t))))
      × ((r : Session) → In r rows → In r (values t) × (r.user_id ≡ user))
unfolding list_sessions
list_sessions-bounded user limit t rows h =
    let mine = filter (λ r. r.user_id == user) (values t) in
    let sorted = sort_by text_order (λ r. codes r.last_used_at) mine in
    let answer = take (pos_part limit) (newest_first mine) in
    let (x, _, same) = bind_eq_ok (check_id user) (λ _. ok answer) h in
    let eq : answer ≡ rows = ok_inj same in
    (
      ap length (sym eq)
          ∙ length-take (pos_part limit) (newest_first mine)
          ∙ ap (least (pos_part limit))
              (length-reverse sorted ∙ length-sort_by text_order (λ r. codes r.last_used_at) mine),
      λ r m.
          let kept : In r mine =
            In-sort text_order (λ s. codes s.last_used_at) r mine
              (In-reverse r sorted
                (take-In r (pos_part limit) (newest_first mine) (subst⁻¹ (In r) eq m))) in
          let (known, own) = In-filter (λ s. s.user_id == user) r (values t) kept in
          (known, (string_eq.beq_iff r.user_id user).0 own),
    )
