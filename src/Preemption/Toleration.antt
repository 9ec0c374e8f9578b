-- ===== src/Preemption/Toleration.antt =====
-- pkg/preemptiontoleration/preemption_toleration.go and preemption_toleration_policy.go.
pub mod Selection
pub mod Exemption
pub mod Protected
use Prim.Native.Char.{code}
use plugins_improve.Prelude.{
  ℕ, suc, zero, ◌+◌, ◌-◌, ◌*◌, ◌/◌, ◌^◌, ℤ, pos, negsuc, pos_part, ◌+ℤ◌, ◌==◌, ltb, leb, leb_ℤ,
  ltb_ℤ, wrap32, wrap64, Bool, true, false, not, ◌&&◌, Option, none, some, List, [], ◌∷◌, ◌++◌,
  String, str_eq, lookup, if◌then◌else◌,
}
use plugins_improve.Status.{unschedulable_and_unresolvable, error}
use plugins_improve.Preemption.Pdb.{SelectorApi, Pdb, PodView}
use plugins_improve.Preemption.Simulation.{Handle, is_success}
use plugins_improve.Preemption.Reprieve.{Selected, rejected, reprieve, finish}

-- The digits of a decimal number after those read.
digits_from : String → ℕ → Option ℕ
digits_from String.[] n = some n
digits_from (String.◌∷◌ c s) n =
    let rest = digits_from s (10 * n + (code c - 48)) in
    if leb 48 (code c) && leb (code c) 57 then rest else none

digits : String → Option ℕ
unfolding digits_from
digits String.[] = none
digits (String.◌∷◌ c s) = digits_from (String.◌∷◌ c s) 0

-- `-n`.
abbrev pub minus : ℕ → ℤ
minus zero = pos zero
minus (suc n) = negsuc n

-- `strconv.ParseInt(s, 10, bits)`, with `half` for 2 ^ (bits - 1).
unfoldable pub parse_int : ℕ → String → Option ℤ
unfolding digits
parse_int half String.[] = none
parse_int half (String.◌∷◌ c s) =
    if code c == 45
    then elim (digits s) [ none ↦ none | some n ↦ if leb n half then some (minus n) else none ]
    else elim (if code c == 43 then digits s else digits (String.◌∷◌ c s)) [
      | none ↦ none
      | some n ↦ if ltb n half then some (pos n) else none
    ]

abbrev pub annotation_key_minimum_preemptable_priority : String
annotation_key_minimum_preemptable_priority =
    "preemption-toleration.scheduling.x-k8s.io/minimum-preemptable-priority"

abbrev pub annotation_key_toleration_seconds : String
annotation_key_toleration_seconds = "preemption-toleration.scheduling.x-k8s.io/toleration-seconds"

pub record Policy : Type 0 where
  pub minimum_preemptable_priority : ℤ
  pub toleration_seconds : ℤ

pub record PriorityClass : Type 0 where
  pub value : ℤ
  pub annotations : List (String × String)

unfoldable pub parse_preemption_toleration_policy : PriorityClass → Option Policy
unfolding parse_int
parse_preemption_toleration_policy pc =
    let minimum : Option ℤ =
      elim (lookup annotation_key_minimum_preemptable_priority pc.annotations) [
        | none ↦ some (wrap32 (pc.value +ℤ pos 1))
        | some s ↦ parse_int (2 ^ 31) s
      ] in
    let seconds : Option ℤ = elim (lookup annotation_key_toleration_seconds pc.annotations) [
      | none ↦ some (pos 0)
      | some s ↦ parse_int (2 ^ 63) s
    ] in
    elim minimum [
      | none ↦ none
      | some m ↦ elim seconds [
        | none ↦ none
        | some t ↦ some (record { minimum_preemptable_priority = m; toleration_seconds = t })
      ]
    ]

-- What the plugin reads of a pod. Instants are nanoseconds; `scheduled_at` is the transition time of
-- the PodScheduled condition where that is true.
pub record Pod : Type 0 where
  pub namespace : String
  pub name : String
  pub labels : List (String × String)
  pub priority : ℤ
  pub priority_class_name : String
  pub preempts_never : Bool
  pub nominated_node_name : String
  pub terminating : Bool
  pub scheduled_at : Option ℤ

abbrev pub pod_view : Pod → PodView
pod_view p = record { namespace = p.namespace; name = p.name; labels = p.labels }

-- `time.Duration(seconds) * time.Second` in nanoseconds, for seconds that are not negative.
abbrev pub toleration_duration : ℤ → ℤ
toleration_duration seconds = wrap64 (pos (pos_part seconds * 10 ^ 9))

-- The part of ExemptedFromPreemption that follows the policy.
unfoldable pub tolerates : Policy → Pod → Pod → ℤ → Bool
tolerates policy victim preemptor now =
    if leb_ℤ policy.minimum_preemptable_priority preemptor.priority
    then false
    else if ltb_ℤ policy.toleration_seconds (pos 0)
    then true
    else elim victim.scheduled_at [
      | none ↦ true
      | some t ↦ ltb_ℤ now (t +ℤ toleration_duration policy.toleration_seconds)
    ]

-- `none` is the error of the lister.
unfoldable pub exempted_from_preemption :
    (String → Option PriorityClass) → Pod → Pod → ℤ → Option Bool
unfolding tolerates parse_preemption_toleration_policy
exempted_from_preemption lister victim preemptor now =
    if str_eq victim.priority_class_name ""
    then some false
    else elim (lister victim.priority_class_name) [
      | none ↦ none
      | some pc ↦
          if preemptor.preempts_never
          then some true
          else elim (parse_preemption_toleration_policy pc) [
            | none ↦ some false
            | some policy ↦ some (tolerates policy victim preemptor now)
          ]
    ]

-- Division of int32 rounds to zero.
abbrev pub percent : ℤ → ℤ
percent (pos n) = pos (n / 100)
percent (negsuc n) = minus (suc n / 100)

-- The arguments of the plugin are validated not to be negative.
unfoldable pub calculate_num_candidates : ℕ → ℕ → ℕ → ℤ
calculate_num_candidates percentage absolute num_nodes =
    let n = percent (wrap32 (pos (num_nodes * percentage))) in
    let raised = if ltb_ℤ n (pos absolute) then pos absolute else n in
    if ltb_ℤ (pos num_nodes) raised then pos num_nodes else raised

abbrev pub none_terminating : Pod → List Pod → Bool
none_terminating pod [] = true
none_terminating pod (p ∷ ps) =
    if p.terminating && ltb_ℤ p.priority pod.priority then false else none_terminating pod ps

-- `node` is the pods of the nominated node, `none` where the snapshot does not have it.
unfoldable pub pod_eligible_to_preempt_others : Bool → Option (List Pod) → Pod → Bool
pod_eligible_to_preempt_others unresolvable node pod =
    if pod.preempts_never
    then false
    else if str_eq pod.nominated_node_name ""
    then true
    else if unresolvable
    then true
    else elim node [ none ↦ true | some ps ↦ none_terminating pod ps ]

module _ {S : Type 0} (h : Handle Pod S) where
  open h use {remove_pod, run_filters, node_pods}

  -- The loop that collects and removes the potential victims.
  unfoldable pub remove_victims :
      (Pod → Option Bool) → Pod → List Pod → S → List Pod → Option (List Pod × S)
  remove_victims exempted preemptor [] s victims = some (victims, s)
  remove_victims exempted preemptor (p ∷ ps) s victims =
      elim (leb_ℤ preemptor.priority p.priority) [
        | true ↦ remove_victims exempted preemptor ps s victims
        | false ↦ elim (exempted p) [
          | none ↦ none
          | some true ↦ remove_victims exempted preemptor ps s victims
          | some false ↦ elim (remove_pod p s) [
            | none ↦ none
            | some s' ↦ remove_victims exempted preemptor ps s' (victims ++ p ∷ [])
          ]
        ]
      ]

  unfoldable pub settle : (sel : SelectorApi) → List (Pdb sel) → List Pod → S → Selected Pod
  settle sel pdbs [] s = rejected unschedulable_and_unresolvable
  settle sel pdbs (v ∷ vs) s =
      if not (is_success (run_filters s))
      then rejected (run_filters s)
      else finish (reprieve h sel pod_view pdbs (λ t. false) (v ∷ vs) s)

  unfoldable pub select_victims_on_node :
      (sel : SelectorApi)
      → List (Pdb sel)
      → (String → Option PriorityClass)
      → ℤ
      → Pod
      → S
      → Selected Pod
  unfolding remove_victims settle
  select_victims_on_node sel pdbs lister now preemptor s =
      elim (remove_victims (λ p. exempted_from_preemption lister p preemptor now) preemptor
        (node_pods s) s []) [
          | none ↦ rejected error
          | some (potential, t) ↦ settle sel pdbs potential t
        ]
