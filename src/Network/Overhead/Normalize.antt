-- ===== src/Network/Overhead/Normalize.antt =====
-- NormalizeScore of pkg/networkaware/networkoverhead/networkoverhead.go, for any arithmetic of float64.
use plugins_improve.Prelude.{ℤ, pos, sub64, eqb_ℤ, not, ◌&&◌, List, String, map, if◌then◌else◌}
use plugins_improve.Floats.{Float64}
use plugins_improve.Network.Overhead.{get_min_max_scores}

unfoldable pub norm_cost : Float64 → ℤ → ℤ → ℤ → ℤ
norm_cost float min_cost max_cost score =
    if not (eqb_ℤ max_cost min_cost)
    then float.to_int (
        float.div (float.mul (float.of_int (pos 100)) (float.of_int (sub64 score min_cost)))
          (float.of_int (sub64 max_cost min_cost)))
    else float.to_int (float.of_int (sub64 score min_cost))

unfoldable pub normalize_score : Float64 → List (String × ℤ) → List (String × ℤ)
unfolding norm_cost get_min_max_scores
normalize_score float scores =
    let (min_cost, max_cost) = get_min_max_scores scores in
    if eqb_ℤ min_cost (pos 0) && eqb_ℤ max_cost (pos 0)
    then scores
    else map {B = String × ℤ} (λ s. (s.0, sub64 (pos 100) (norm_cost float min_cost max_cost s.1)))
        scores
