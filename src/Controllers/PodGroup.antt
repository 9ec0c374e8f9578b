-- ===== src/Controllers/PodGroup.antt =====
-- The pod group controller: pkg/controllers/podgroup_controller.go.
pub mod Phases
use plugins_improve.Prelude.{
  ℕ, suc, zero, ◌+◌, ◌*◌, ◌^◌, ℤ, pos, ◌+ℤ◌, ◌-ℤ◌, wrap32, ltb_ℤ, leb_ℤ, eqb_ℤ, ◌==◌, Bool, true,
  false, not, ◌&&◌, ◌||◌, Option, none, some, List, [], ◌∷◌, ◌++◌, String, str_eq, str_lt, lookup,
  lookup_or, length, keep, map, sort_slice, if◌then◌else◌,
}
use Prim.Native.String.{◌++◌ as str_append}

-- The phases of a group, with the empty string for a new one.
pub data Phase : Type 0 where
  fresh pending scheduling running unknown finished failed : Phase

pub data PodPhase : Type 0 where
  pod_pending pod_running pod_succeeded pod_failed pod_unknown : PodPhase

-- What the controller reads of a pod; an owner reference is its name.
pub record Pod : Type 0 where
  pub namespace : String
  pub phase : PodPhase
  pub labels : List (String × String)
  pub owner_references : List String

-- Instants are nanoseconds.
pub record PodGroup : Type 0 where
  pub name : String
  pub namespace : String
  pub creation_timestamp : ℤ
  pub min_member : ℤ
  pub phase : Phase
  pub occupied_by : String
  pub running_pods : ℤ
  pub succeeded_pods : ℤ
  pub failed_pods : ℤ
  pub schedule_start_time : ℤ

abbrev pub pod_group_label : String
pod_group_label = "scheduling.x-k8s.io/pod-group"

unfoldable pub get_pod_group_label : Pod → String
get_pod_group_label pod = lookup_or pod_group_label "" pod.labels

-- The counts of running, succeeded and failed pods, which are int32.
unfoldable pub get_current_pod_stats : List Pod → ℤ × ℤ × ℤ → ℤ × ℤ × ℤ
get_current_pod_stats [] counts = counts
get_current_pod_stats (p ∷ ps) (r, s, f) = elim p.phase [
  | pod_running ↦ get_current_pod_stats ps (wrap32 (r +ℤ pos 1), s, f)
  | pod_succeeded ↦ get_current_pod_stats ps (r, wrap32 (s +ℤ pos 1), f)
  | pod_failed ↦ get_current_pod_stats ps (r, s, wrap32 (f +ℤ pos 1))
  | _ ↦ get_current_pod_stats ps (r, s, f)
]

-- `strings.Join(refs, ",")`.
unfoldable pub join : List String → String
join [] = ""
join (s ∷ []) = s
join (s ∷ t ∷ ts) = str_append s (str_append "," (join (t ∷ ts)))

unfoldable pub fill_occupied_obj : Pod → PodGroup → PodGroup
unfolding join
fill_occupied_obj pod pg = elim pod.owner_references [
  | [] ↦ pg
  | r ∷ rs ↦ record pg {
    occupied_by =
        join (
          sort_slice str_lt
            (map (λ name. str_append pod.namespace (str_append "/" name)) (r ∷ rs)));
  }
]

-- The decision of an active phase, from the counts that were just written.
unfoldable pub active_phase : PodGroup → Phase
active_phase pg =
    let scheduled = wrap32 (pg.succeeded_pods +ℤ pg.running_pods) in
    let counted = wrap32 (wrap32 (pg.failed_pods +ℤ pg.running_pods) +ℤ pg.succeeded_pods) in
    let after_scheduling = if ltb_ℤ scheduled pg.min_member then scheduling else pg.phase in
    let after_running = if leb_ℤ pg.min_member scheduled then running else after_scheduling in
    let after_failed =
      if not (eqb_ℤ pg.failed_pods (pos 0)) && leb_ℤ pg.min_member counted
      then failed
      else after_running in
    if leb_ℤ pg.min_member pg.succeeded_pods then finished else after_failed

-- The `default` branch of the switch.
unfoldable pub reconcile_active : List Pod → PodGroup → PodGroup
unfolding active_phase
reconcile_active pods pg =
    let (r, s, f) = get_current_pod_stats pods (pos 0, pos 0, pos 0) in
    let counted = record pg { running_pods = r; succeeded_pods = s; failed_pods = f } in
    if ltb_ℤ (pos (length pods)) pg.min_member
    then record counted { phase = pending }
    else record counted { phase = active_phase counted }

-- `none` is the panic of `pods[0]` on an empty list.
unfoldable pub reconcile_pending : List Pod → PodGroup → Option PodGroup
unfolding fill_occupied_obj
reconcile_pending pods pg =
    if leb_ℤ pg.min_member (pos (length pods))
    then elim pods [
      | [] ↦ none
      | p ∷ ps ↦ some (fill_occupied_obj p (record pg { phase = scheduling }))
    ]
    else some pg

abbrev pub forty_eight_hours : ℤ
forty_eight_hours = pos (48 * 3600 * 10 ^ 9)

-- Whether the group has waited too long for a pod to run.
unfoldable pub timed_out : PodGroup → Bool
timed_out pg =
    elim pg.phase [ scheduling ↦ true | pending ↦ true | _ ↦ false ]
    && (eqb_ℤ pg.running_pods (pos 0)
        && ltb_ℤ forty_eight_hours (pg.schedule_start_time -ℤ pg.creation_timestamp))

-- The body of Reconcile, from the group as it was read to the group that is patched. The client's
-- list is the pods of the cluster with the label of the group.
unfoldable pub reconcile : List Pod → PodGroup → Option PodGroup
unfolding timed_out reconcile_pending reconcile_active
reconcile cluster pg =
    let pods = keep (λ p. str_eq (get_pod_group_label p) pg.name) cluster in
    elim pg.phase [
      | finished ↦ some pg
      | failed ↦ some pg
      | fresh ↦ some (record pg { phase = pending })
      | pending ↦ if timed_out pg then some pg else reconcile_pending pods pg
      | scheduling ↦ if timed_out pg then some pg else some (reconcile_active pods pg)
      | running ↦ some (reconcile_active pods pg)
      | unknown ↦ some (reconcile_active pods pg)
    ]

-- The request that an event of a pod enqueues: the namespace and the name of the group.
unfoldable pub pod_to_pod_group : Pod → List (String × String)
pod_to_pod_group pod =
    let name = get_pod_group_label pod in if str_eq name "" then [] else (pod.namespace, name) ∷ []
