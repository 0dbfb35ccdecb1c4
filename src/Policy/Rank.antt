-- ===== src/Policy/Rank.antt =====
-- The sort keys of src/langharness_plugin/scope_policy.py: the distance of the scope, then the
-- ranking from high to low, then the plugin's key; Python compares the tuples part by part.
use langharness.Prelude.{
  ℕ, Bool, true, false, ◌≡◌, List, ◌&&◌, ◌||◌, not, arith, ltb, nat_beq, ◌≤◌, Bool-cases, inl, inr,
}
use langharness.Prelude.Int.{ℤ, ltb_ℤ, ◌≤ℤ◌}
use langharness.Prelude.Order.{Order, text_ltb, text_ltb_asym, text_ltb_trans}

-- `(distance, -ranking, plugin_key)`
pub record Rank : Type 0 where
  pub distance : ℕ
  pub ranking : ℤ
  pub key : List ℕ

abbrev pub rank_ltb : Rank → Rank → Bool
rank_ltb a b =
    ltb a.distance b.distance
    || (nat_beq a.distance b.distance
        && (ltb_ℤ b.ranking a.ranking || (not (ltb_ℤ a.ranking b.ranking) && text_ltb a.key b.key)))

pub rank_ltb_asym : (a b : Rank) → rank_ltb a b ≡ true → rank_ltb b a ≡ false
rank_ltb_asym a b h = ground (arith, text_ltb_asym a.key b.key)

pub rank_ltb_trans :
    (a b c : Rank) → rank_ltb b a ≡ false → rank_ltb c b ≡ false → rank_ltb c a ≡ false
rank_ltb_trans a b c h k = ground (arith, text_ltb_trans a.key b.key c.key)

abbrev pub rank_order : Order Rank
rank_order = record { lt = rank_ltb; asym = rank_ltb_asym; trans = rank_ltb_trans }

-- Not to come before `b` is to be no nearer, and at the same distance to rank no higher.
pub rank_not_before :
    (a b : Rank)
    → rank_ltb a b ≡ false
    → (b.distance ≤ a.distance) × (a.distance ≡ b.distance → a.ranking ≤ℤ b.ranking)
rank_not_before a b h = (ground (arith), λ e. ground (arith))

pub rank_irrefl : (a : Rank) → rank_ltb a a ≡ false
rank_irrefl a = elim (Bool-cases (rank_ltb a a)) [
  | inl less ↦ rank_ltb_asym a a less
  | inr not_less ↦ not_less
]
