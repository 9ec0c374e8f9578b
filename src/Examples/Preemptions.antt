-- ===== src/Examples/Preemptions.antt =====
-- The theorems on preemption, for small nodes.
use plugins_improve.Prelude.{
  ℕ, pos, ◌≡◌, ◌≤◌, ◌⊎◌, refl, arith, ltb, ltb_ℤ, str_eq, Bool, true, false, not, ◌&&◌, Option,
  none, some, List, [], ◌∷◌, ◌++◌, String, length, lookup, has, all, sort_slice, wrap32, wrap64,
  ◌+ℤ◌, if◌then◌else◌,
}
use mathlib.Core.List.{Perm}
use plugins_improve.Status.{success, unschedulable}
use plugins_improve.Preemption.Pdb.{
  SelectorApi, Pdb, PodView, visit_pod, filter_pods_with_pdb_violation,
}
use plugins_improve.Preemption.Pdb.Budget.{number_taking, budget_respected}
use plugins_improve.Preemption.Simulation.{Handle, is_success}
use plugins_improve.Preemption.Reprieve.{victims_of, reprieve, reprieve_all, reprieve_pod}
use plugins_improve.Preemption.Reprieve.Settling.{RemoveUndoesAdd, RemovesOnce, put_back, decided}
use plugins_improve.Preemption.Reprieve.Fit.{pod_fits_without_victims, reprieve_all-decided}
use plugins_improve.Preemption.Toleration.{
  Pod, PriorityClass, exempted_from_preemption, select_victims_on_node,
}
use plugins_improve.Preemption.Toleration.Selection.{preemptable, victims_are_preemptable}
use plugins_improve.Preemption.Toleration.Protected.{protected, victims_are_unprotected}

-- A selector is the key of a label.
abbrev label_selectors : SelectorApi
label_selectors = record {
  LabelSelector = String;
  Selector = String;
  as_selector = λ s. some s;
  is_empty = λ s. str_eq s "";
  matches = λ s labels. has s labels;
}

abbrev web_pod : String → PodView
web_pod name = record { namespace = "shop"; name = name; labels = ("web", "1") ∷ [] }

abbrev web_pods : List PodView
web_pods = web_pod "w1" ∷ web_pod "w2" ∷ web_pod "w3" ∷ []

abbrev web_budget : ℕ → Pdb label_selectors
web_budget allowed = record {
  namespace = "shop";
  selector = "web";
  disruptions_allowed = pos allowed;
  disrupted_pods = "w3" ∷ [];
}

budget_respected_example :
    number_taking label_selectors
      (λ p. p)
      (web_budget 1)
      (filter_pods_with_pdb_violation label_selectors (λ p. p) web_pods (web_budget 1 ∷ [])).1
    ≤ 1
budget_respected_example =
    budget_respected label_selectors PodView (λ p. p) web_pods (web_budget 1 ∷ []) 0 (web_budget 1)
      refl (omega arith, omega arith) (omega arith)

-- A node that may hold a large pod (`true`) and a small one; the preemptor fits beside the small one.
abbrev remove_one : Bool → Bool × Bool → Option (Bool × Bool)
remove_one true (true, small) = some (false, small)
remove_one true (false, small) = none
remove_one false (large, true) = some (large, false)
remove_one false (large, false) = none

abbrev add_one : Bool → Bool × Bool → Option (Bool × Bool)
add_one true (true, small) = none
add_one true (false, small) = some (true, small)
add_one false (large, true) = none
add_one false (large, false) = some (large, true)

abbrev two_pods : Handle Bool (Bool × Bool)
two_pods = record {
  remove_pod = remove_one;
  add_pod = add_one;
  run_filters = λ s. if s.0 then unschedulable else success;
  node_pods = λ s. true ∷ false ∷ [];
  more_important_pod = λ a b. a && not b;
}

two_pods_undo : RemoveUndoesAdd two_pods
two_pods_undo p s added e = ground arith

two_pods_once : RemovesOnce two_pods
two_pods_once p s s' e = ground arith

abbrev no_view : Bool → PodView
no_view p = record { namespace = ""; name = ""; labels = [] }

two_pods_result :
    reprieve two_pods label_selectors no_view [] (λ s. false) (true ∷ false ∷ []) (false, false)
    ≡ some ((false, true), true ∷ [], 0)
unfolding reprieve reprieve_all filter_pods_with_pdb_violation sort_slice visit_pod reprieve_pod
two_pods_result = refl

pod_fits_without_victims_example :
    (kept : List Bool) × Perm (true ∷ false ∷ []) (true ∷ [] ++ kept)
    × (put_back two_pods kept (false, false) ≡ some (false, true))
    × (is_success (two_pods.run_filters (false, true)) ≡ true)
    × ((kept ≡ []) ⊎ (◌≡◌ {A = Bool} false false))
pod_fits_without_victims_example =
    pod_fits_without_victims Bool (Bool × Bool) two_pods label_selectors no_view [] (λ s. false)
      (true ∷ false ∷ []) (false, false) (false, true) (true ∷ []) 0 two_pods_undo two_pods_once
      refl two_pods_result

reprieve_all-decided_example :
    reprieve_all two_pods (λ s. s.1) (true ∷ false ∷ []) (false, false) [] 0
    ≡ decided two_pods (λ s. s.1) (true ∷ false ∷ []) (false, false) [] 0
reprieve_all-decided_example =
    reprieve_all-decided Bool (Bool × Bool) two_pods (λ s. s.1) (true ∷ false ∷ []) (false, false)
      [] 0 two_pods_undo two_pods_once

-- A batch pod whose class tolerates preemption below priority 100 for an hour.
abbrev batch_class : PriorityClass
batch_class = record {
  value = pos 10;
  annotations =
      ("preemption-toleration.scheduling.x-k8s.io/minimum-preemptable-priority", "100")
      ∷ ("preemption-toleration.scheduling.x-k8s.io/toleration-seconds", "3600")
      ∷ [];
}

abbrev plain_class : PriorityClass
plain_class = record { value = pos 10; annotations = [] }

abbrev long_class : PriorityClass
long_class = record {
  value = pos 10;
  annotations =
      ("preemption-toleration.scheduling.x-k8s.io/toleration-seconds", "10000000000") ∷ [];
}

abbrev classes : String → Option PriorityClass
classes name =
    if str_eq name "batch"
    then some batch_class
    else if str_eq name "plain"
    then some plain_class
    else if str_eq name "long"
    then some long_class
    else none

abbrev pod_of : String → ℕ → Pod
pod_of class_name priority = record {
  namespace = "shop";
  name = class_name;
  labels = [];
  priority = pos priority;
  priority_class_name = class_name;
  preempts_never = false;
  nominated_node_name = "";
  terminating = false;
  scheduled_at = some (pos 5);
}

-- A node with room for two pods beside the preemptor.
abbrev without : String → List Pod → List Pod
without name [] = []
without name (p ∷ ps) = if str_eq p.name name then ps else p ∷ without name ps

abbrev room_for_two : Handle Pod (List Pod)
room_for_two = record {
  remove_pod = λ p s. some (without p.name s);
  add_pod = λ p s. some (p ∷ s);
  run_filters = λ s. if ltb (length s) 3 then success else unschedulable;
  node_pods = λ s. s;
  more_important_pod = λ a b. ltb_ℤ b.priority a.priority;
}

one_victim :
    select_victims_on_node room_for_two label_selectors [] classes
      (pos 7)
      (pod_of "batch" 50)
      (pod_of "plain" 10 ∷ pod_of "batch" 20 ∷ pod_of "long" 5 ∷ [])
    ≡ victims_of (pod_of "long" 5 ∷ []) 0
unfolding select_victims_on_node exempted_from_preemption lookup wrap32 ◌+ℤ◌ wrap64 reprieve
    reprieve_all filter_pods_with_pdb_violation sort_slice visit_pod reprieve_pod
one_victim = refl

victims_are_preemptable_example :
    all
      (preemptable
        (λ p. exempted_from_preemption classes p (pod_of "batch" 50) (pos 7))
        (pod_of "batch" 50))
      (pod_of "long" 5 ∷ [])
    ≡ true
victims_are_preemptable_example =
    victims_are_preemptable (List Pod) room_for_two label_selectors [] classes (pos 7)
      (pod_of "batch" 50) (pod_of "plain" 10 ∷ pod_of "batch" 20 ∷ pod_of "long" 5 ∷ [])
      (pod_of "long" 5 ∷ []) 0 one_victim

victims_are_unprotected_example :
    all (λ v. not (protected classes (pos 50) (pos 7) v)) (pod_of "long" 5 ∷ []) ≡ true
victims_are_unprotected_example =
    victims_are_unprotected (List Pod) room_for_two label_selectors [] classes (pos 7)
      (pod_of "batch" 50) (pod_of "plain" 10 ∷ pod_of "batch" 20 ∷ pod_of "long" 5 ∷ [])
      (pod_of "long" 5 ∷ []) 0 one_victim
