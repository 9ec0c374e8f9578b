-- ===== src/Examples/Scoring.antt =====
-- The theorems on the scores of pkg/noderesources, for three nodes.
use plugins_improve.Prelude.{
  ℕ, ◌≤◌, ℤ, pos, negsuc, ◌≤ℤ◌, All, ◌≡◌, ◌⊎◌, arith, some, List, [], ◌∷◌, String, map, str_eq,
  lookup, lookup_or, if◌then◌else◌,
}
use plugins_improve.Scores.{normalize_score, highest_from, lowest_from, min_score, max_int64}
use plugins_improve.Scores.Range.{share, with_share, above, Attains, normalize_score_lem}
use plugins_improve.Scores.Allocatable.{resource_scorer, most, least}
use plugins_improve.Scores.Allocatable.Opposite.{total, weight_sum, resource_scorer-opposite}

abbrev scores : List (String × ℤ)
scores = ("n1", pos 30) ∷ ("n2", negsuc 9) ∷ ("n3", pos 10) ∷ []

normalize_score_lem_example :
    let highest = highest_from min_score scores in
    let lowest = lowest_from max_int64 scores in
    (normalize_score scores ≡ map (with_share highest lowest) scores)
    × Attains highest scores
    × Attains lowest scores
    × All (λ e. share highest lowest e.1 ≤ 100) scores
    × ((s t : ℤ) → s ≤ℤ t → share highest lowest s ≤ share highest lowest t)
    × (share highest lowest lowest ≡ 0)
    × ((above lowest highest ≡ 0) ⊎ (share highest lowest highest ≡ 100))
normalize_score_lem_example =
    normalize_score_lem ("n1", pos 30) (("n2", negsuc 9) ∷ ("n3", pos 10) ∷ [])
      ((omega arith, omega arith), ((omega arith, omega arith), ((omega arith, omega arith), tt)))

abbrev allocatable : List (String × ℤ)
allocatable = ("cpu", pos 4000) ∷ []

abbrev capacity : String → ℕ
capacity name = if str_eq "cpu" name then 4000 else 0

allocatable_known : (name : String) → lookup_or name (pos 0) allocatable ≡ pos (capacity name)
unfolding lookup_or lookup
allocatable_known name = ground arith

abbrev weights : List (String × ℕ)
weights = ("cpu", 2) ∷ ("memory", 2) ∷ []

resource_scorer-opposite_example :
    (resource_scorer (("cpu", pos 2) ∷ ("memory", pos 2) ∷ []) most allocatable ≡ some (pos 2000))
    × (resource_scorer (("cpu", pos 2) ∷ ("memory", pos 2) ∷ []) least allocatable
        ≡ some (negsuc 1999))
unfolding total weight_sum
resource_scorer-opposite_example =
    resource_scorer-opposite allocatable capacity allocatable_known weights
      (ground arith, (ground arith, tt)) (ground arith) (ground arith) (ground arith)
