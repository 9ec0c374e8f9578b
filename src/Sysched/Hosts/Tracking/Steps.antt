-- ===== src/Sysched/Hosts/Tracking/Steps.antt =====
-- Every handler of pkg/sysched/sysched.go keeps the state in step with the recorded names.
use plugins_improve.Prelude.{
  ℕ, Bool, true, false, not, ◌&&◌, Option, none, some, List, [], ◌∷◌, ◌++◌, String, str_eq,
  str_eq_refl, ◌≡◌, refl, arith, lookup, lookup_or, has, lookup-insert, insert, if◌then◌else◌,
}
use plugins_improve.Floats.{Float64}
use plugins_improve.Sysched.Profiles.{CallSets, Pod, Profiles, get_syscalls}
use plugins_improve.Sysched.Hosts.{
  SySched, remove, index_of, has_name, new_sy_sched, update_host_syscalls, append_pod, add_to,
  add_pod, remove_at, remove_from, recompute_host_syscalls, remove_pod, pod_added, pod_updated,
  pod_deleted,
}
use plugins_improve.Sysched.Hosts.Removal.{index_of-has_name, remove-names}
use plugins_improve.Sysched.Hosts.Tracking.{
  Event, added, updated, deleted, record_name, abstract_step, abstract_run, step, run, any_call,
  TracksNode, Tracks, TracksNode-new, put-Tracks, same-Tracks, member-union_from,
}

module _ (sets : CallSets) (profiles : Profiles) (float : Float64) where
  open sets use {S, empty, union, member-empty}
  open float use {F}

  append_pod-Tracks :
      (sc : SySched S F) (recorded : String → String → Bool) (pod : Pod) (pods : List Pod)
      (b : Bool)
      → lookup pod.node_name sc.host_to_pods ≡ some pods
      → has_name pod.name pods ≡ b
      → Tracks sets profiles float sc recorded
      → Tracks sets profiles float
          (append_pod sets profiles float b pods pod sc)
          (record_name true pod recorded)
  unfolding append_pod update_host_syscalls lookup_or
  append_pod-Tracks sc recorded pod pods true e b t =
      let (k, (d, h, m)) = t pod.node_name in
      same-Tracks sets profiles float sc recorded true pod (ground (arith, h pod.name, e, b)) t
  append_pod-Tracks sc recorded pod pods false e b t =
      let (k, (d, h, m)) = t pod.node_name in
      let old : TracksNode sets profiles float pods (lookup_or pod.node_name empty sc.host_syscalls)
          (recorded pod.node_name) =
        (ground (arith, d, e), λ name. ground (arith, h name, e), λ c. ground (arith, m c, e)) in
      put-Tracks sets profiles float sc (append_pod sets profiles float false pods pod sc) recorded
        true pod (pods ++ pod ∷ []) _
        (λ j. lookup-insert pod.node_name j (pods ++ pod ∷ []) sc.host_to_pods)
        (λ j. lookup-insert pod.node_name j _ sc.host_syscalls) t
        (TracksNode-new sets profiles float pods _ (recorded pod.node_name) pod b old)

  if-Tracks :
      (b : Bool) (sc sc' : SySched S F) (recorded recorded' : String → String → Bool)
      → Tracks sets profiles float sc recorded
      → Tracks sets profiles float sc' recorded'
      → Tracks sets profiles float (if b then sc else sc') (if b then recorded else recorded')
  if-Tracks true sc sc' recorded recorded' t t' = t
  if-Tracks false sc sc' recorded recorded' t t' = t'

  add_to-Tracks :
      (sc : SySched S F) (recorded : String → String → Bool) (pod : Pod) (o : Option (List Pod))
      → lookup pod.node_name sc.host_to_pods ≡ o
      → Tracks sets profiles float sc recorded
      → Tracks sets profiles float
          (add_to sets profiles float o pod sc)
          (record_name true pod recorded)
  unfolding add_to update_host_syscalls lookup_or has_name any_call
  add_to-Tracks sc recorded pod none e t =
      let (k, (d, h, m)) = t pod.node_name in
      let new : TracksNode sets profiles float []
          (lookup_or pod.node_name empty (insert pod.node_name empty sc.host_syscalls))
          (recorded pod.node_name) =
        (
          refl,
          λ name. ground (arith, h name, e),
          λ c. ground (
            arith,
            lookup-insert pod.node_name pod.node_name empty sc.host_syscalls,
            str_eq_refl pod.node_name,
            member-empty c,
          ),
        ) in
      put-Tracks sets profiles float sc (add_to sets profiles float none pod sc) recorded true pod
        (pod ∷ []) _ (λ j. lookup-insert pod.node_name j (pod ∷ []) sc.host_to_pods)
        (λ j. ground (
          arith,
          lookup-insert pod.node_name j empty sc.host_syscalls,
          lookup-insert pod.node_name j
              (union (lookup_or pod.node_name empty (insert pod.node_name empty sc.host_syscalls))
                (get_syscalls sets profiles pod))
              (insert pod.node_name empty sc.host_syscalls),
        ))
        t (TracksNode-new sets profiles float [] _ (recorded pod.node_name) pod refl new)
  add_to-Tracks sc recorded pod (some pods) e t =
      append_pod-Tracks sc recorded pod pods (has_name pod.name pods) e refl t

  add_pod-Tracks :
      (sc : SySched S F) (recorded : String → String → Bool) (pod : Pod)
      → Tracks sets profiles float sc recorded
      → Tracks sets profiles float
          (add_pod sets profiles float pod sc)
          (record_name true pod recorded)
  unfolding add_pod
  add_pod-Tracks sc recorded pod t = add_to-Tracks sc recorded pod _ refl t

  remove_at-Tracks :
      (sc : SySched S F) (recorded : String → String → Bool) (pod : Pod) (pods : List Pod)
      (o : Option ℕ)
      → lookup pod.node_name sc.host_to_pods ≡ some pods
      → index_of pod.name pods ≡ o
      → Tracks sets profiles float sc recorded
      → Tracks sets profiles float
          (remove_at sets profiles float o pods pod sc)
          (record_name false pod recorded)
  unfolding remove_at recompute_host_syscalls lookup_or
  remove_at-Tracks sc recorded pod pods none e f t =
      let (k, (d, h, m)) = t pod.node_name in
      same-Tracks sets profiles float sc recorded false pod
        (ground (arith, h pod.name, e, index_of-has_name pod.name pods f)) t
  remove_at-Tracks sc recorded pod pods (some i) e f t =
      let (k, (d, h, m)) = t pod.node_name in
      let (d', h') = remove-names pod.name pods i f (ground (arith, d, e)) in
      put-Tracks sets profiles float sc (remove_at sets profiles float (some i) pods pod sc)
        recorded false pod (remove pods i) _
        (λ j. lookup-insert pod.node_name j (remove pods i) sc.host_to_pods)
        (λ j. lookup-insert pod.node_name j _ sc.host_syscalls) t
        (
          d',
          λ name. ground (arith, h' name, h name, e),
          λ c. ground (
            arith,
            member-union_from sets profiles float c (remove pods i) empty,
            member-empty c,
          ),
        )

  remove_from-Tracks :
      (sc : SySched S F) (recorded : String → String → Bool) (pod : Pod) (o : Option (List Pod))
      → lookup pod.node_name sc.host_to_pods ≡ o
      → Tracks sets profiles float sc recorded
      → Tracks sets profiles float
          (remove_from sets profiles float o pod sc)
          (record_name false pod recorded)
  unfolding remove_from lookup_or has_name
  remove_from-Tracks sc recorded pod none e t =
      let (k, (d, h, m)) = t pod.node_name in
      same-Tracks sets profiles float sc recorded false pod (ground (arith, h pod.name, e)) t
  remove_from-Tracks sc recorded pod (some pods) e t =
      remove_at-Tracks sc recorded pod pods (index_of pod.name pods) e refl t

  remove_pod-Tracks :
      (sc : SySched S F) (recorded : String → String → Bool) (pod : Pod)
      → Tracks sets profiles float sc recorded
      → Tracks sets profiles float
          (remove_pod sets profiles float pod sc)
          (record_name false pod recorded)
  unfolding remove_pod
  remove_pod-Tracks sc recorded pod t = remove_from-Tracks sc recorded pod _ refl t

  step-Tracks :
      (sc : SySched S F) (recorded : String → String → Bool) (e : Event)
      → Tracks sets profiles float sc recorded
      → Tracks sets profiles float (step sets profiles float sc e) (abstract_step recorded e)
  unfolding pod_added pod_updated pod_deleted
  step-Tracks sc recorded (added pod) t =
      if-Tracks (str_eq pod.phase "Running") (add_pod sets profiles float pod sc) sc
        (record_name true pod recorded) recorded (add_pod-Tracks sc recorded pod t) t
  step-Tracks sc recorded (updated old new) t =
      if-Tracks (str_eq old.phase "Pending" && not (str_eq old.host_ip ""))
        (add_pod sets profiles float old sc) sc (record_name true old recorded) recorded
        (add_pod-Tracks sc recorded old t) t
  step-Tracks sc recorded (deleted pod) t = remove_pod-Tracks sc recorded pod t

  run-Tracks :
      (sc : SySched S F) (recorded : String → String → Bool) (es : List Event)
      → Tracks sets profiles float sc recorded
      → Tracks sets profiles float (run sets profiles float sc es) (abstract_run recorded es)
  unfolding run abstract_run
  run-Tracks sc recorded [] t = t
  run-Tracks sc recorded (e ∷ es) t =
      run-Tracks (step sets profiles float sc e) (abstract_step recorded e) es
        (step-Tracks sc recorded e t)

  -- Over any sequence of pod events from the start, with profiles that do not change, the state
  -- refines the set of recorded names: the pods of a node have the names that were recorded on it and
  -- not deleted since, each once; and the system calls of the node are those of its pods.
  pub run-Tracks_from_start :
      (es : List Event)
      → Tracks sets profiles float
          (run sets profiles float (new_sy_sched sets profiles float) es)
          (abstract_run (λ node name. false) es)
  unfolding has lookup lookup_or has_name any_call
  run-Tracks_from_start es =
      run-Tracks (new_sy_sched sets profiles float) (λ node name. false) es
        (λ node. (refl, (refl, λ name. refl, λ c. member-empty c)))
