-- ===== src/Sysched/Hosts/Tracking.antt =====
-- What pkg/sysched/sysched.go keeps of the pods of a node, over any sequence of pod events.
pub mod Steps
use plugins_improve.Prelude.{
  ℕ, Bool, true, false, not, ◌&&◌, ◌||◌, Option, none, some, List, [], ◌∷◌, ◌++◌, String, str_eq,
  str_eq_sym, str_eq_refl, eq_iff, ◌≡◌, refl, arith, lookup, lookup_or, has, lookup-insert, insert,
  if◌then◌else◌,
}
use plugins_improve.Floats.{Float64}
use plugins_improve.Sysched.Profiles.{CallSets, Pod, Profiles, get_syscalls}
use plugins_improve.Sysched.Hosts.{
  SySched, remove, index_of, has_name, new_sy_sched, update_host_syscalls, append_pod, add_to,
  add_pod, remove_at, remove_from, union_from, recompute_host_syscalls, remove_pod, pod_added,
  pod_updated, pod_deleted,
}
use plugins_improve.Sysched.Hosts.Removal.{distinct, index_of-has_name, remove-names}

has_name-append :
    (name : String) (ps : List Pod) (p : Pod)
    → has_name name (ps ++ p ∷ []) ≡ (has_name name ps || str_eq p.name name)
unfolding has_name
has_name-append name [] p = ground arith
has_name-append name (q ∷ qs) p = ground (arith, has_name-append name qs p)

distinct-append :
    (ps : List Pod) (p : Pod)
    → distinct ps ≡ true
    → has_name p.name ps ≡ false
    → distinct (ps ++ p ∷ []) ≡ true
unfolding has_name
distinct-append [] p d h = refl
distinct-append (q ∷ qs) p d h =
    ground
      (arith, d, h, distinct-append qs p, has_name-append q.name qs p, str_eq_sym p.name q.name)

-- The events of the informer.
pub data Event : Type 0 where
  added deleted : Pod → Event
  updated : Pod → Pod → Event

-- The abstract state: which names are recorded on which node.
abbrev pub record_name : Bool → Pod → (String → String → Bool) → String → String → Bool
record_name b pod recorded node name =
    if str_eq pod.node_name node && str_eq pod.name name then b else recorded node name

abbrev pub abstract_step : (String → String → Bool) → Event → String → String → Bool
abstract_step recorded (added pod) =
    if str_eq pod.phase "Running" then record_name true pod recorded else recorded
abstract_step recorded (updated old new) =
    if str_eq old.phase "Pending" && not (str_eq old.host_ip "")
    then record_name true old recorded
    else recorded
abstract_step recorded (deleted pod) = record_name false pod recorded

unfoldable pub abstract_run : (String → String → Bool) → List Event → String → String → Bool
abstract_run recorded [] = recorded
abstract_run recorded (e ∷ es) = abstract_run (abstract_step recorded e) es

module _ (sets : CallSets) (profiles : Profiles) (float : Float64) where
  open sets use {S, empty, union, member, member-empty, member-union}
  open float use {F}

  abbrev pub step : SySched S F → Event → SySched S F
  step sc (added pod) = pod_added sets profiles float pod sc
  step sc (updated old new) = pod_updated sets profiles float old new sc
  step sc (deleted pod) = pod_deleted sets profiles float pod sc

  unfoldable pub run : SySched S F → List Event → SySched S F
  run sc [] = sc
  run sc (e ∷ es) = run (step sc e) es

  -- Some pod makes the call.
  unfoldable pub any_call : String → List Pod → Bool
  any_call c [] = false
  any_call c (p ∷ ps) = member c (get_syscalls sets profiles p) || any_call c ps

  any_call-append :
      (c : String) (ps : List Pod) (p : Pod)
      → any_call c (ps ++ p ∷ []) ≡ (any_call c ps || member c (get_syscalls sets profiles p))
  unfolding any_call
  any_call-append c [] p = ground arith
  any_call-append c (q ∷ qs) p = ground (arith, any_call-append c qs p)

  pub member-union_from :
      (c : String) (ps : List Pod) (s : S)
      → member c (union_from sets profiles float ps s) ≡ (member c s || any_call c ps)
  unfolding union_from any_call
  member-union_from c [] s = ground arith
  member-union_from c (p ∷ ps) s = ground (
    arith,
    member-union_from c ps (union s (get_syscalls sets profiles p)),
    member-union c s (get_syscalls sets profiles p),
  )

  -- What is kept of a node: its pods have the recorded names, each once, and its calls are those of
  -- its pods.
  abbrev pub TracksNode : List Pod → S → (String → Bool) → Type 0
  TracksNode pods syscalls recorded =
      (distinct pods ≡ true)
      × ((name : String) → has_name name pods ≡ recorded name)
      × ((c : String) → member c syscalls ≡ any_call c pods)

  abbrev pub Tracks : SySched S F → (String → String → Bool) → Type 0
  Tracks sc recorded =
      (node : String)
      → (has node sc.host_syscalls ≡ has node sc.host_to_pods)
        × TracksNode (lookup_or node [] sc.host_to_pods) (lookup_or node empty sc.host_syscalls)
            (recorded node)

  -- A pod that is new to the node.
  pub TracksNode-new :
      (pods : List Pod) (syscalls : S) (recorded : String → Bool) (pod : Pod)
      → has_name pod.name pods ≡ false
      → TracksNode pods syscalls recorded
      → TracksNode
          (pods ++ pod ∷ [])
          (union syscalls (get_syscalls sets profiles pod))
          (λ name. if str_eq pod.name name then true else recorded name)
  TracksNode-new pods syscalls recorded pod n (d, h, m) = (
    distinct-append pods pod d n,
    λ name. ground (arith, h name, has_name-append name pods pod),
    λ c. ground (
      arith,
      m c,
      any_call-append c pods pod,
      member-union c syscalls (get_syscalls sets profiles pod),
    ),
  )

  -- A write of one node's pods and calls.
  pub put-Tracks :
      (sc sc' : SySched S F) (recorded : String → String → Bool) (b : Bool) (pod : Pod)
      (pods : List Pod) (s : S)
      → ((k : String)
          → lookup k sc'.host_to_pods
            ≡ (if str_eq pod.node_name k then some pods else lookup k sc.host_to_pods))
      → ((k : String)
          → lookup k sc'.host_syscalls
            ≡ (if str_eq pod.node_name k then some s else lookup k sc.host_syscalls))
      → Tracks sc recorded
      → TracksNode pods s (λ name. if str_eq pod.name name then b else recorded pod.node_name name)
      → Tracks sc' (record_name b pod recorded)
  unfolding has lookup_or
  put-Tracks sc sc' recorded b pod pods s p q t (d, h, m) node =
      let (k, (d', h', m')) = t node in
      (
        ground (arith, p node, q node, k),
        (
          ground (arith, p node, d, d'),
          λ name. ground (arith, p node, h name, h' name, eq_iff pod.node_name node),
          λ c. ground (arith, p node, q node, m c, m' c),
        ),
      )

  -- Nothing is written where the name is as it was.
  pub same-Tracks :
      (sc : SySched S F) (recorded : String → String → Bool) (b : Bool) (pod : Pod)
      → recorded pod.node_name pod.name ≡ b
      → Tracks sc recorded
      → Tracks sc (record_name b pod recorded)
  same-Tracks sc recorded b pod e t node =
      let (k, (d, h, m)) = t node in
      (
        k,
        (d, λ name. ground (arith, h name, e, eq_iff pod.node_name node, eq_iff pod.name name), m),
      )
