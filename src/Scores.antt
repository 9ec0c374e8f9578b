-- ===== src/Scores.antt =====
-- NormalizeScore of pkg/noderesources/allocatable.go, which pkg/podstate/pod_state.go repeats, and the
-- score of the latter.
pub mod Range
pub mod Allocatable
use plugins_improve.Prelude.{
  ℕ, ◌^◌, ◌-◌, ℤ, pos, negsuc, add64, sub64, mul64, quot64, ltb_ℤ, eqb_ℤ, length, Bool, true, false,
  List, [], ◌∷◌, String, map, if◌then◌else◌,
}

abbrev pub max_int64 : ℤ
max_int64 = pos (2 ^ 63 - 1)

-- -math.MaxInt64.
abbrev pub min_score : ℤ
min_score = negsuc (2 ^ 63 - 2)

unfoldable pub highest_from : ℤ → List (String × ℤ) → ℤ
highest_from highest [] = highest
highest_from highest ((name, score) ∷ rest) =
    highest_from (if ltb_ℤ highest score then score else highest) rest

unfoldable pub lowest_from : ℤ → List (String × ℤ) → ℤ
lowest_from lowest [] = lowest
lowest_from lowest ((name, score) ∷ rest) =
    lowest_from (if ltb_ℤ score lowest then score else lowest) rest

-- One score, moved to the range from 0 to 100.
unfoldable pub rescale : ℤ → ℤ → ℤ → ℤ
rescale highest lowest score =
    let old_range = sub64 highest lowest in
    if eqb_ℤ old_range (pos 0)
    then pos 0
    else add64 (quot64 (mul64 (sub64 score lowest) (pos 100)) old_range) (pos 0)

unfoldable pub normalize_score : List (String × ℤ) → List (String × ℤ)
unfolding rescale highest_from lowest_from
normalize_score scores =
    map (λ s. (s.0, rescale (highest_from min_score scores) (lowest_from max_int64 scores) s.1))
      scores

-- The terminating pods of a node, less the pods that are nominated to it. `pods` says of each pod of
-- the node whether it is terminating.
unfoldable pub terminating_from : List Bool → ℤ → ℤ
terminating_from [] n = n
terminating_from (terminating ∷ rest) n =
    terminating_from rest (if terminating then add64 n (pos 1) else n)

unfoldable pub pod_state_score : List String → List Bool → ℤ
unfolding terminating_from
pod_state_score nominated pods = sub64 (terminating_from pods (pos 0)) (pos (length nominated))
