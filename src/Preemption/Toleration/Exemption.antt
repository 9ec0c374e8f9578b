-- ===== src/Preemption/Toleration/Exemption.antt =====
-- When a victim is exempted (pkg/preemptiontoleration), and how many candidates are tried.
use plugins_improve.Prelude.{
  ℕ, ◌≤◌, ◌<◌, ◌≡◌, ℤ, pos, ◌+ℤ◌, ◌≤ℤ◌, ltb_ℤ, wrap32_id, wrap64, wrap64_id, InInt32, true, false,
  ◌&&◌, not, Option, none, some, [], String, str_eq, lookup, arith,
}
use plugins_improve.Preemption.Toleration.{
  Pod, PriorityClass, parse_preemption_toleration_policy, tolerates, exempted_from_preemption,
  calculate_num_candidates,
}

-- The victim of a class without annotations is not exempted from a preemptor of a higher priority
-- than the class, and is exempted from another only while it is not scheduled or was scheduled after
-- the current time. The priorities of classes are below 2 ^ 31 - 1.
pub default_exemption :
    (lister : String → Option PriorityClass) (victim preemptor : Pod) (now : ℤ) (pc : PriorityClass)
    → str_eq victim.priority_class_name "" ≡ false
    → lister victim.priority_class_name ≡ some pc
    → pc.annotations ≡ []
    → InInt32 (pc.value +ℤ pos 1)
    → preemptor.preempts_never ≡ false
    → exempted_from_preemption lister victim preemptor now
      ≡ some (
          not (ltb_ℤ pc.value preemptor.priority)
          && (elim victim.scheduled_at [ none ↦ true | some t ↦ ltb_ℤ now t ]))
unfolding exempted_from_preemption tolerates parse_preemption_toleration_policy lookup ◌+ℤ◌
default_exemption lister victim preemptor now pc n l a r p =
    ground (arith, wrap32_id (pc.value +ℤ pos 1) r, wrap64_id (pos 0) (omega arith, omega arith))

-- A toleration of 9223372037 to 18446744073 seconds is taken for a negative duration: a victim that was
-- scheduled by now is not exempted from a preemptor that may preempt.
pub duration_overflows :
    (lister : String → Option PriorityClass) (victim preemptor : Pod) (now t : ℤ)
    (pc : PriorityClass) (minimum : ℤ) (seconds : ℕ)
    → str_eq victim.priority_class_name "" ≡ false
    → lister victim.priority_class_name ≡ some pc
    → parse_preemption_toleration_policy pc
      ≡ some (record { minimum_preemptable_priority = minimum; toleration_seconds = pos seconds })
    → preemptor.preempts_never ≡ false
    → victim.scheduled_at ≡ some t
    → t ≤ℤ now
    → 9223372036 < seconds
    → seconds ≤ 18446744073
    → exempted_from_preemption lister victim preemptor now ≡ some false
unfolding exempted_from_preemption tolerates wrap64 ◌+ℤ◌
duration_overflows lister victim preemptor now t pc minimum seconds n l d p s b lo hi = ground arith

-- With nodes and an absolute minimum that are not zero, at least one candidate is looked for and at
-- most one for each node, also where the product overflows.
pub calculate_num_candidates_bounds :
    (percentage absolute num_nodes : ℕ)
    → 0 < absolute
    → 0 < num_nodes
    → let n = calculate_num_candidates percentage absolute num_nodes in
      (pos 1 ≤ℤ n) × (n ≤ℤ pos num_nodes)
unfolding calculate_num_candidates
calculate_num_candidates_bounds percentage absolute num_nodes a b = ground arith
