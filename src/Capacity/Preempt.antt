-- ===== src/Capacity/Preempt.antt =====
-- The preemptor of pkg/capacityscheduling/capacity_scheduling.go: which pods may preempt, and which
-- pods of a node become victims.
pub mod Candidates
use plugins_improve.Prelude.{
  Bool, true, false, not, ◌&&◌, ◌||◌, Option, none, some, List, [], ◌∷◌, str_eq, ltb_ℤ, lookup,
  sort_slice, if◌then◌else◌,
}
use plugins_improve.Status.{unschedulable, unschedulable_and_unresolvable, error}
use plugins_improve.Preemption.Pdb.{SelectorApi, Pdb, PodView}
use plugins_improve.Preemption.Simulation.{Handle, is_success, take_out}
use plugins_improve.Preemption.Reprieve.{Selected, rejected, reprieve, finish}
use plugins_improve.Capacity.Resource.{Resource, Pod, FrameworkApi}
use plugins_improve.Capacity.Quota.{
  ElasticQuotaInfos, used_over_min_with, used_over_max_with, used_over_min,
  aggregated_used_over_min_with,
}
use plugins_improve.Capacity.Plugin.{PreFilterState, CycleState}

module _ {Q : Type 0} where
  abbrev pub same_namespace : Pod Q → Pod Q → Bool
  same_namespace p pod = str_eq p.namespace pod.namespace

  abbrev pub lower_priority : Pod Q → Pod Q → Bool
  lower_priority p pod = ltb_ℤ p.priority pod.priority

  -- The loop over the pods of the nominated node, for a preemptor with a quota: `true` where a
  -- terminating pod already makes room.
  unfoldable pub room_in_quota : ElasticQuotaInfos → Pod Q → Bool → List (Pod Q) → Bool
  room_in_quota infos pod more_than_min [] = false
  room_in_quota infos pod more_than_min (p ∷ ps) =
      let rest = room_in_quota infos pod more_than_min ps in
      if p.terminating
      then elim (lookup p.namespace infos) [
        | none ↦ rest
        | some info ↦
            if same_namespace p pod && lower_priority p pod
            then true
            else if not (same_namespace p pod) && (not more_than_min && used_over_min info)
            then true
            else rest
      ]
      else rest

  -- The same for a preemptor without one.
  unfoldable pub room_outside : ElasticQuotaInfos → Pod Q → List (Pod Q) → Bool
  room_outside infos pod [] = false
  room_outside infos pod (p ∷ ps) =
      let rest = room_outside infos pod ps in
      elim (lookup p.namespace infos) [
        | some info ↦ rest
        | none ↦ if p.terminating && lower_priority p pod then true else rest
      ]

  -- `unresolvable` says that the status of the nominated node is UnschedulableAndUnresolvable, and
  -- `node` is the pods of that node, `none` where it is not in the snapshot.
  unfoldable pub pod_eligible_to_preempt_others :
      CycleState → Bool → Option (List (Pod Q)) → Pod Q → Bool
  unfolding room_in_quota room_outside
  pod_eligible_to_preempt_others c unresolvable node pod =
      if pod.preempts_never then false else elim c.pre_filter_state [
        | none ↦ false
        | some st ↦
            if str_eq pod.nominated_node_name "" || unresolvable then true else elim c.snapshot [
              | none ↦ true
              | some infos ↦ elim node [
                | none ↦ true
                | some ps ↦ elim (lookup pod.namespace infos) [
                  | some eq ↦ not (
                      room_in_quota infos pod
                        (used_over_min_with eq st.nominated_pods_req_in_eq_with_pod_req) ps)
                  | none ↦ not (room_outside infos pod ps)
                ]
              ]
            ]
      ]

  -- The test of the loop that collects potential victims, on the quotas as they are at that point of
  -- the loop.
  unfoldable pub is_candidate : ElasticQuotaInfos → Pod Q → Option Bool → Pod Q → Bool
  is_candidate infos pod (some true) p = elim (lookup p.namespace infos) [
    | none ↦ false
    | some info ↦ same_namespace p pod && lower_priority p pod
  ]
  is_candidate infos pod (some false) p = elim (lookup p.namespace infos) [
    | none ↦ false
    | some info ↦ not (same_namespace p pod) && used_over_min info
  ]
  is_candidate infos pod none p = elim (lookup p.namespace infos) [
    | none ↦ lower_priority p pod
    | some info ↦ false
  ]

  -- Whether the preemptor has a quota, and whether that would be over its Min.
  abbrev pub quota_mode : ElasticQuotaInfos → PreFilterState → Pod Q → Option Bool
  quota_mode infos st pod = elim (lookup pod.namespace infos) [
    | none ↦ none
    | some eq ↦ some (used_over_min_with eq st.nominated_pods_req_in_eq_with_pod_req)
  ]

  abbrev pub pod_view : Pod Q → PodView
  pod_view p = record { namespace = p.namespace; name = p.name; labels = p.labels }

module _ (api : FrameworkApi) {S : Type 0} (h : Handle (Pod api.Q) S) (cycle : S → CycleState) where
  open api use {Q}
  open h use {run_filters, node_pods, more_important_pod}

  -- The quotas of the cycle state, which the calls of the framework change through the PreFilter
  -- extensions; the entry for the snapshot was read before the first of them.
  abbrev pub quotas : S → ElasticQuotaInfos
  quotas s = elim (cycle s).snapshot [ none ↦ [] | some infos ↦ infos ]

  -- The test of `reprievePod` on the quotas, with two requests of the cycle.
  unfoldable pub over_quota : Pod Q → Resource → Resource → S → Bool
  over_quota pod in_eq all s = elim (lookup pod.namespace (quotas s)) [
    | none ↦ false
    | some eq ↦ used_over_max_with eq in_eq || aggregated_used_over_min_with api (quotas s) all
  ]

  -- The checks after the potential victims are out.
  unfoldable pub settle :
      (sel : SelectorApi)
      → List (Pdb sel)
      → PreFilterState
      → Bool
      → Pod Q
      → List (Pod Q)
      → S
      → Selected (Pod Q)
  unfolding reprieve
  settle sel pdbs st with_eq pod [] s = rejected unschedulable_and_unresolvable
  settle sel pdbs st with_eq pod (v ∷ vs) s =
      if not (is_success (run_filters s))
      then rejected (run_filters s)
      else if with_eq && over_quota pod st.pod_req st.pod_req s
      then rejected unschedulable
      else finish (
          reprieve h sel pod_view pdbs
            (λ t.
              with_eq
              && over_quota pod st.nominated_pods_req_in_eq_with_pod_req
                  st.nominated_pods_req_with_pod_req t)
            (v ∷ vs) s)

  unfoldable pub select_victims_on_node :
      (sel : SelectorApi) → List (Pdb sel) → Pod Q → S → Selected (Pod Q)
  unfolding settle take_out
  select_victims_on_node sel pdbs pod s = elim (cycle s).snapshot [
    | none ↦ rejected unschedulable
    | some infos ↦ elim (cycle s).pre_filter_state [
      | none ↦ rejected unschedulable
      | some st ↦
          let pods = sort_slice (λ a b. not (more_important_pod a b)) (node_pods s) in
          let mode = quota_mode infos st pod in
          let with_eq : Bool = elim mode [ none ↦ false | some b ↦ true ] in
          elim (take_out h (λ t p. is_candidate (quotas t) pod mode p) pods s []) [
            | none ↦ rejected error
            | some (potential, t) ↦ settle sel pdbs st with_eq pod potential t
          ]
    ]
  ]
