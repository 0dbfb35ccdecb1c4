-- ===== src/Core/Agents/Distinct.antt =====
-- The ids in the document of src/langharness_core/plugins/agents/registry.py.
use mathlib.Core.Path.{subst, subst⁻¹}
use langharness.Prelude.{
  ℕ, String, Bool, true, false, not, ◌≡◌, refl, ap, List, [], ◌∷◌, ◌++◌, Option, nat_eq,
  nat_beq_iff, any, filter, find, arith, inl, inr, Bool-cases, Result-cases, Option-cases,
}
use langharness.Core.Ids.{validate_id}
use langharness.Core.Agents.{
  Agent, new_agent, Document, missing, invalid, agents, same_id, default_agent, read_document,
  write_document, create_agent, update_agent, delete_agent, change_first, changed,
}

same_id_iff_left : (s t : List ℕ) → same_id s t ≡ true → s ≡ t
same_id_iff_left [] [] h = refl
same_id_iff_left [] (d ∷ t) h = cc
same_id_iff_left (c ∷ s) [] h = cc
same_id_iff_left (c ∷ s) (d ∷ t) h = ground (arith, nat_beq_iff c d, same_id_iff_left s t)

same_id_refl : (s : List ℕ) → same_id s s ≡ true
same_id_refl [] = refl
same_id_refl (c ∷ s) = ground (arith, nat_beq_iff c c, same_id_refl s)

same_id_sym : (s t : List ℕ) → same_id s t ≡ false → same_id t s ≡ false
same_id_sym s t h = elim (Bool-cases (same_id t s)) [
  | inl same ↦
      let q = same_id_iff_left t s same in
      ground (arith, same_id_refl s, subst (λ x. same_id s x ≡ false) q h)
  | inr other ↦ other
]

-- No two agents have the same id.
abbrev pub HasDistinct : List Agent → Type 0
HasDistinct [] = Unit
HasDistinct (a ∷ l) = (any (λ b. same_id b.id a.id) l ≡ false) × HasDistinct l

abbrev pub IsDistinct : Document → Type 0
IsDistinct missing = Unit
IsDistinct invalid = Unit
IsDistinct (agents l) = HasDistinct l

any-snoc :
    (x : List ℕ) (l : List Agent) (a : Agent)
    → any (λ b. same_id b.id x) l ≡ false
    → same_id a.id x ≡ false
    → any (λ b. same_id b.id x) (l ++ a ∷ []) ≡ false
any-snoc x [] a h k = ground arith
any-snoc x (b ∷ l) a h k = ground (arith, any-snoc x l a)

HasDistinct-snoc :
    (l : List Agent) (a : Agent)
    → any (λ b. same_id b.id a.id) l ≡ false
    → HasDistinct l
    → HasDistinct (l ++ a ∷ [])
HasDistinct-snoc [] a new h = (refl, tt)
HasDistinct-snoc (b ∷ l) a new h = (
  any-snoc b.id l a h.0 (same_id_sym b.id a.id (ground arith)),
  HasDistinct-snoc l a (ground arith) h.1,
)

any-change :
    (f : Agent → Agent)
    → ((a : Agent) → (f a).id ≡ a.id)
    → (x k : List ℕ) (l : List Agent)
    → any (λ b. same_id b.id x) (change_first f k l) ≡ any (λ b. same_id b.id x) l
any-change f same x k [] = refl
any-change f same x k (a ∷ l) =
    ground (arith, ap (λ i. same_id i x) (same a), any-change f same x k l)

HasDistinct-change :
    (f : Agent → Agent)
    → ((a : Agent) → (f a).id ≡ a.id)
    → (k : List ℕ) (l : List Agent) → HasDistinct l
    → HasDistinct (change_first f k l)
HasDistinct-change f same k [] h = tt
HasDistinct-change f same k (a ∷ l) h = elim (Bool-cases (same_id a.id k)) [
  | inl at ↦
      let q : any (λ b. same_id b.id (f a).id) l ≡ false =
        subst⁻¹ (λ i. any (λ b. same_id b.id i) l ≡ false) (same a) h.0 in
      ground arith
  | inr other ↦ ground (arith, any-change f same a.id k l, HasDistinct-change f same k l)
]

any-filter :
    (x : List ℕ) (p : Agent → Bool) (l : List Agent)
    → any (λ b. same_id b.id x) l ≡ false
    → any (λ b. same_id b.id x) (filter p l) ≡ false
any-filter x p [] h = refl
any-filter x p (a ∷ l) h = ground (arith, any-filter x p l)

HasDistinct-filter : (p : Agent → Bool) (l : List Agent) → HasDistinct l → HasDistinct (filter p l)
HasDistinct-filter p [] h = tt
HasDistinct-filter p (a ∷ l) h = ground (arith, any-filter a.id p l h.0, HasDistinct-filter p l h.1)

pub data Request : Type 0 where
  create_request : String → List ℕ → List ℕ → String → Request
  update_request : String → List ℕ → Option (List ℕ) → Option String → Option Bool → Request
  delete_request : String → List ℕ → Request

abbrev pub step : Request → Document → Document
step (create_request now agent_id name description) d =
    (create_agent now agent_id name description d).1
step (update_request now agent_id name description enabled) d =
    (update_agent now agent_id name description enabled d).1
step (delete_request now agent_id) d = (delete_agent now agent_id d).1

abbrev pub run : List Request → Document → Document
run [] d = d
run (q ∷ qs) d = run qs (step q d)

create-IsDistinct :
    (now : String) (agent_id name : List ℕ) (description : String) (l : List Agent)
    → HasDistinct l
    → IsDistinct (create_agent now agent_id name description (agents l)).1
unfolding create_agent read_document write_document
create-IsDistinct now agent_id name description l h = elim (Result-cases (validate_id agent_id)) [
  | inl (wanted, valid) ↦ elim (Bool-cases (any (λ a. same_id a.id wanted) l)) [
    | inl taken ↦ ground arith
    | inr new ↦
        let kept = HasDistinct-snoc l (new_agent now wanted name description) new h in
        ground (arith, kept)
  ]
  | inr (e, raised) ↦ ground arith
]

update-IsDistinct :
    (now : String) (agent_id : List ℕ) (name : Option (List ℕ)) (description : Option String)
    (enabled : Option Bool) (l : List Agent)
    → HasDistinct l
    → IsDistinct (update_agent now agent_id name description enabled (agents l)).1
unfolding update_agent read_document write_document
update-IsDistinct now agent_id name description enabled l h =
    elim (Result-cases (validate_id agent_id)) [
      | inl (wanted, valid) ↦
          let kept =
            HasDistinct-change (changed now name description enabled) (λ a. refl) wanted l h in
          elim (Option-cases (find (λ a. same_id a.id wanted) l)) [
            | inl gone ↦ ground arith
            | inr (a, found) ↦ ground (arith, kept)
          ]
      | inr (e, raised) ↦ ground arith
    ]

delete-IsDistinct :
    (now : String) (agent_id : List ℕ) (l : List Agent)
    → HasDistinct l
    → IsDistinct (delete_agent now agent_id (agents l)).1
unfolding delete_agent read_document write_document
delete-IsDistinct now agent_id l h = elim (Result-cases (validate_id agent_id)) [
  | inl (wanted, valid) ↦
      let kept = HasDistinct-filter (λ a. not (same_id a.id wanted)) l h in
      elim (Option-cases (find (λ a. same_id a.id wanted) l)) [
        | inl gone ↦ ground arith
        | inr (a, found) ↦ ground (arith, kept)
      ]
  | inr (e, raised) ↦ ground arith
]

-- A call on a document that is not there is a call on the document with the default agent, or
-- raises before it.
create_missing :
    (now : String) (agent_id name : List ℕ) (description : String)
    → IsDistinct (create_agent now agent_id name description missing).1
unfolding create_agent read_document
create_missing now agent_id name description =
    let h = create-IsDistinct now agent_id name description (default_agent now ∷ []) (refl, tt) in
    elim (Result-cases (validate_id agent_id)) [
      | inl (wanted, valid) ↦ ground (arith, h)
      | inr (e, raised) ↦ ground arith
    ]

update_missing :
    (now : String) (agent_id : List ℕ) (name : Option (List ℕ)) (description : Option String)
    (enabled : Option Bool)
    → IsDistinct (update_agent now agent_id name description enabled missing).1
unfolding update_agent read_document
update_missing now agent_id name description enabled =
    let h =
      update-IsDistinct now agent_id name description enabled (default_agent now ∷ []) (refl, tt) in
    elim (Result-cases (validate_id agent_id)) [
      | inl (wanted, valid) ↦ ground (arith, h)
      | inr (e, raised) ↦ ground arith
    ]

delete_missing :
    (now : String) (agent_id : List ℕ) → IsDistinct (delete_agent now agent_id missing).1
unfolding delete_agent read_document
delete_missing now agent_id =
    let h = delete-IsDistinct now agent_id (default_agent now ∷ []) (refl, tt) in
    elim (Result-cases (validate_id agent_id)) [
      | inl (wanted, valid) ↦ ground (arith, h)
      | inr (e, raised) ↦ ground arith
    ]

step-IsDistinct : (q : Request) (d : Document) → IsDistinct d → IsDistinct (step q d)
unfolding create_agent update_agent delete_agent read_document
step-IsDistinct (create_request now agent_id name description) missing h =
    create_missing now agent_id name description
step-IsDistinct (create_request now agent_id name description) invalid h = ground arith
step-IsDistinct (create_request now agent_id name description) (agents l) h =
    create-IsDistinct now agent_id name description l h
step-IsDistinct (update_request now agent_id name description enabled) missing h =
    update_missing now agent_id name description enabled
step-IsDistinct (update_request now agent_id name description enabled) invalid h = ground arith
step-IsDistinct (update_request now agent_id name description enabled) (agents l) h =
    update-IsDistinct now agent_id name description enabled l h
step-IsDistinct (delete_request now agent_id) missing h = delete_missing now agent_id
step-IsDistinct (delete_request now agent_id) invalid h = ground arith
step-IsDistinct (delete_request now agent_id) (agents l) h = delete-IsDistinct now agent_id l h

-- From a document with no two agents of the same id, any sequence of calls that create, change
-- and delete agents, refused ones included, leaves no two agents with the same id.
pub run-IsDistinct : (qs : List Request) (d : Document) → IsDistinct d → IsDistinct (run qs d)
run-IsDistinct [] d h = h
run-IsDistinct (q ∷ qs) d h = run-IsDistinct qs (step q d) (step-IsDistinct q d h)
