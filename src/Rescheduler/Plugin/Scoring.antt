-- ===== src/Rescheduler/Plugin/Scoring.antt =====
-- The range of the scores of pkg/rescheduler/rescheduler.go.
use plugins_improve.Prelude.{
  pos, ◌≤ℤ◌, Bool, true, false, Option, List, ◌≡◌, not, refl, if◌then◌else◌, arith,
}
use plugins_improve.Rescheduler.Calculator.{Float64, Pod, Node, Config, calculate_score}
use plugins_improve.Rescheduler.Plugin.{get_node_usage, at_most_100, clamp, score_node}

if_either :
    {A : Type 0} (P : A → Type 0) (c : Bool) (a b : A)
    → (c ≡ true → P a)
    → P b
    → P (if c then a else b)
if_either P true a b first second = first refl
if_either P false a b first second = second

-- The conversion to an integer keeps 0 and 100, and the order next to them.
module _ (float : Float64) (config : Config float)
    (zero_kept : float.to_int (float.of_int (pos 0)) ≡ pos 0)
    (hundred_kept : float.to_int (float.of_int (pos 100)) ≡ pos 100)
    (above : (x : float.F) → float.less (float.of_int (pos 0)) x ≡ true → pos 0 ≤ℤ float.to_int x)
    (below : (x : float.F)
      → float.less x (float.of_int (pos 100)) ≡ true
      → float.to_int x ≤ℤ pos 100) where
  open float use {F, of_int, to_int, less}

  at_most_100_le : (x : F) → to_int (at_most_100 float config x) ≤ℤ pos 100
  at_most_100_le x =
      if_either (λ y. to_int y ≤ℤ pos 100) (less x (of_int (pos 100))) x (of_int (pos 100))
        (below x) (rw hundred_kept (omega arith))

  clamp_bounds :
      (x : F)
      → (pos 0 ≤ℤ to_int (clamp float config x)) × (to_int (clamp float config x) ≤ℤ pos 100)
  clamp_bounds x =
      if_either (λ y. (pos 0 ≤ℤ to_int y) × (to_int y ≤ℤ pos 100))
        (less (of_int (pos 0)) (at_most_100 float config x)) (at_most_100 float config x)
        (of_int (pos 0)) (λ e. (above (at_most_100 float config x) e, at_most_100_le x))
        (rw zero_kept (omega arith, omega arith))

  -- A score is from 0 to 100.
  pub score_node_bounds :
      (pods : Option (List Pod)) (node : Node)
      → (pos 0 ≤ℤ score_node float config pods node)
        × (score_node float config pods node ≤ℤ pos 100)
  unfolding score_node
  score_node_bounds pods node =
      if_either (λ s. (pos 0 ≤ℤ s) × (s ≤ℤ pos 100)) (not config.enable_scheduling_optimization)
        (pos 0)
        (to_int (
          clamp float config
            (calculate_score float config (get_node_usage float config pods node))))
        (λ e. (omega arith, omega arith))
        (clamp_bounds (calculate_score float config (get_node_usage float config pods node)))
