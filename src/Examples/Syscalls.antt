-- ===== src/Examples/Syscalls.antt =====
-- The theorems on pkg/sysched, with sets of calls as lists.
use plugins_improve.Prelude.{
  length, pos, false, not, ◌&&◌, ◌||◌, none, some, List, [], ◌∷◌, ◌++◌, String, str_eq, str_eq_refl,
  elem, keep, eq_iff, ◌≡◌, ◌↔◌, refl, arith, All, lookup, lookup_or, insert, if◌then◌else◌,
}
use plugins_improve.Sysched.Paths.{has_char, stem, parse_name_ns}
use plugins_improve.Sysched.Paths.Layout.{joined, parse_name_ns-joined}
use plugins_improve.Sysched.Profiles.{CallSets, Pod, Profiles, get_syscalls}
use plugins_improve.Sysched.Hosts.{new_sy_sched, pod_added, pod_deleted, score}
use plugins_improve.Sysched.Hosts.Tracking.{Event, added, deleted, run, abstract_run, Tracks}
use plugins_improve.Sysched.Hosts.Tracking.Steps.{run-Tracks_from_start}
use plugins_improve.Sysched.Hosts.Extraneous.{
  extraneous, all_extraneous, SameCalls, score-SameCalls,
}
use plugins_improve.Examples.Rescheduling.{fixed_point}

elem-append : (c : String) (s t : List String) → elem c (s ++ t) ≡ (elem c s || elem c t)
unfolding elem
elem-append c [] t = refl
elem-append c (x ∷ s) t = ground (arith, elem-append c s t)

elem-keep :
    (c : String) (s t : List String)
    → elem c (keep (λ x. not (elem x t)) s) ≡ (elem c s && not (elem c t))
unfolding elem keep
elem-keep c [] t = refl
elem-keep c (x ∷ s) t = ground (arith, elem-keep c s t, eq_iff x c)

empty_iff : (s : List String) → (length s ≡ 0) ↔ ((c : String) → elem c s ≡ false)
unfolding elem
empty_iff [] = (λ e c. refl, λ h. refl)
empty_iff (x ∷ s) = (λ e. ground (arith, e), λ h. ground (arith, h x, str_eq_refl x))

elem_empty : (c : String) → elem c [] ≡ false
unfolding elem
elem_empty c = refl

abbrev call_lists : CallSets
call_lists = record {
  S = List String;
  empty = [];
  of_list = λ l. l;
  union = λ s t. s ++ t;
  difference = λ s t. keep (λ x. not (elem x t)) s;
  len = λ s. length s;
  member = elem;
  member-empty = elem_empty;
  member-of_list = λ c l. refl;
  member-union = elem-append;
  member-difference = elem-keep;
  len-member = empty_iff;
}

abbrev profiles : Profiles
profiles = record {
  get = λ ns name. if str_eq name "web" then some (("allow", "read" ∷ "write" ∷ []) ∷ []) else none;
  act_allow = "allow";
  act_log = "log";
  default_profile_namespace = "";
  default_profile_name = "";
}

abbrev web_pod : String → Pod
web_pod name = record {
  name = name;
  node_name = "n1";
  phase = "Running";
  host_ip = "10.0.0.1";
  profile = some (record { kind = "Localhost"; localhost_profile = some "operator/shop/web.json" });
  container_profiles = [];
  annotations = [];
}

abbrev events : List Event
events = added (web_pod "a") ∷ added (web_pod "b") ∷ deleted (web_pod "a") ∷ []

run-Tracks_from_start_example :
    Tracks call_lists profiles fixed_point
      (run call_lists profiles fixed_point (new_sy_sched call_lists profiles fixed_point) events)
      (abstract_run (λ node name. false) events)
run-Tracks_from_start_example = run-Tracks_from_start call_lists profiles fixed_point events

parse_name_ns-joined_example : parse_name_ns "localhost/operator/shop/web.json" ≡ ("shop", "web")
unfolding joined has_char
parse_name_ns-joined_example =
    parse_name_ns-joined "localhost/operator" "shop" "web" "json" refl refl refl refl

-- One pod is left on the node, and nothing is extraneous to it.
nothing_extraneous :
    all_extraneous call_lists profiles fixed_point
      (get_syscalls call_lists profiles (web_pod "c"))
      ("read" ∷ "write" ∷ [])
      (lookup_or "n1" []
        (run call_lists profiles fixed_point
          (new_sy_sched call_lists profiles fixed_point)
          events).host_to_pods)
    ≡ 0
unfolding get_syscalls parse_name_ns stem has_char lookup_or lookup run pod_deleted pod_added insert
    extraneous keep elem
nothing_extraneous = refl

score-SameCalls_example :
    let sc =
      run call_lists profiles fixed_point (new_sy_sched call_lists profiles fixed_point) events in
    ((score call_lists profiles fixed_point (web_pod "c") (some "n1") sc).0 ≡ pos 0)
    ↔ All
        (λ p. SameCalls call_lists profiles fixed_point p (web_pod "c"))
        (lookup_or "n1" [] sc.host_to_pods)
unfolding get_syscalls parse_name_ns stem has_char lookup run pod_deleted pod_added insert
score-SameCalls_example =
    score-SameCalls call_lists profiles fixed_point events (web_pod "c") "n1"
      ("read" ∷ "write" ∷ []) refl refl (ground (arith, nothing_extraneous))
