-- ===== src/Sysched/Hosts.antt =====
-- The state of pkg/sysched/sysched.go, the handlers of pod events, and Score.
pub mod Removal
pub mod Tracking
pub mod Extraneous
use plugins_improve.Prelude.{
  ℕ, zero, suc, ◌==◌, ◌^◌, ◌-◌, ℤ, pos, add64, Bool, true, false, not, ◌&&◌, ◌||◌, Option, none,
  some, List, [], ◌∷◌, ◌++◌, String, str_eq, lookup, lookup_or, insert, if◌then◌else◌,
}
use plugins_improve.Floats.{Float64}
use plugins_improve.Sysched.Profiles.{CallSets, Pod, Profiles, get_syscalls}

-- `SySched`, without its client and logger.
pub record SySched (S F : Type 0) : Type 0 where
  pub host_to_pods : List (String × List Pod)
  pub host_syscalls : List (String × S)
  pub ex_s_avg : F
  pub ex_s_avg_count : ℤ

abbrev pub last_of : Pod → List Pod → Pod
last_of p [] = p
last_of p (q ∷ qs) = last_of q qs

abbrev pub but_last : Pod → List Pod → List Pod
but_last p [] = []
but_last p (q ∷ qs) = p ∷ but_last q qs

abbrev pub set_pod : List Pod → ℕ → Pod → List Pod
set_pod [] i q = []
set_pod (p ∷ ps) zero q = q ∷ ps
set_pod (p ∷ ps) (suc i) q = p ∷ set_pod ps i q

abbrev pub all_but_last : List Pod → List Pod
all_but_last [] = []
all_but_last (p ∷ ps) = but_last p ps

-- The last pod takes the place of the one at the index.
unfoldable pub remove : List Pod → ℕ → List Pod
remove [] i = []
remove (p ∷ ps) i = all_but_last (set_pod (p ∷ ps) i (last_of p ps))

-- The index of the first pod with the name.
unfoldable pub index_of : String → List Pod → Option ℕ
index_of name [] = none
index_of name (p ∷ ps) =
    if str_eq p.name name
    then some 0
    else elim (index_of name ps) [ none ↦ none | some i ↦ some (suc i) ]

unfoldable pub has_name : String → List Pod → Bool
has_name name [] = false
has_name name (p ∷ ps) = str_eq p.name name || has_name name ps

abbrev pub max_int64 : ℤ
max_int64 = pos (2 ^ 63 - 1)

module _ (sets : CallSets) (profiles : Profiles) (float : Float64) where
  open sets use {S, empty, union, difference, len}
  open float use {F}

  abbrev pub new_sy_sched : SySched S F
  new_sy_sched = record {
    host_to_pods = [];
    host_syscalls = [];
    ex_s_avg = float.of_int (pos 0);
    ex_s_avg_count = pos 1;
  }

  unfoldable pub update_host_syscalls : Pod → SySched S F → SySched S F
  unfolding lookup_or
  update_host_syscalls pod sc = record sc {
    host_syscalls =
        insert pod.node_name
          (union (lookup_or pod.node_name empty sc.host_syscalls) (get_syscalls sets profiles pod))
          sc.host_syscalls;
  }

  -- The pods of the node, and whether one of them has the name.
  unfoldable pub append_pod : Bool → List Pod → Pod → SySched S F → SySched S F
  unfolding update_host_syscalls
  append_pod true pods pod sc = sc
  append_pod false pods pod sc =
      update_host_syscalls pod
        (record sc { host_to_pods = insert pod.node_name (pods ++ pod ∷ []) sc.host_to_pods })

  unfoldable pub add_to : Option (List Pod) → Pod → SySched S F → SySched S F
  unfolding append_pod has_name
  add_to none pod sc = update_host_syscalls pod (record sc {
    host_to_pods = insert pod.node_name (pod ∷ []) sc.host_to_pods;
    host_syscalls = insert pod.node_name empty sc.host_syscalls;
  })
  add_to (some pods) pod sc = append_pod (has_name pod.name pods) pods pod sc

  unfoldable pub add_pod : Pod → SySched S F → SySched S F
  unfolding add_to
  add_pod pod sc = add_to (lookup pod.node_name sc.host_to_pods) pod sc

  unfoldable pub union_from : List Pod → S → S
  union_from [] syscalls = syscalls
  union_from (p ∷ ps) syscalls = union_from ps (union syscalls (get_syscalls sets profiles p))

  unfoldable pub recompute_host_syscalls : List Pod → S
  unfolding union_from
  recompute_host_syscalls pods = union_from pods empty

  unfoldable pub remove_at : Option ℕ → List Pod → Pod → SySched S F → SySched S F
  unfolding remove recompute_host_syscalls
  remove_at none pods pod sc = sc
  remove_at (some i) pods pod sc = record sc {
    host_to_pods = insert pod.node_name (remove pods i) sc.host_to_pods;
    host_syscalls = insert pod.node_name (recompute_host_syscalls (remove pods i)) sc.host_syscalls;
  }

  unfoldable pub remove_from : Option (List Pod) → Pod → SySched S F → SySched S F
  unfolding remove_at index_of
  remove_from none pod sc = sc
  remove_from (some pods) pod sc = remove_at (index_of pod.name pods) pods pod sc

  unfoldable pub remove_pod : Pod → SySched S F → SySched S F
  unfolding remove_from
  remove_pod pod sc = remove_from (lookup pod.node_name sc.host_to_pods) pod sc

  unfoldable pub pod_added : Pod → SySched S F → SySched S F
  unfolding add_pod
  pod_added pod sc = if str_eq pod.phase "Running" then add_pod pod sc else sc

  -- The handler reads the old pod.
  unfoldable pub pod_updated : Pod → Pod → SySched S F → SySched S F
  unfolding add_pod
  pod_updated old new sc =
      if str_eq old.phase "Pending" && not (str_eq old.host_ip "") then add_pod old sc else sc

  unfoldable pub pod_deleted : Pod → SySched S F → SySched S F
  unfolding remove_pod
  pod_deleted pod sc = remove_pod pod sc

  -- The score of a set is its size.
  unfoldable pub calc_score : S → ℤ
  calc_score syscalls = pos (len syscalls)

  unfoldable pub add_scores : S → List Pod → ℤ → ℤ
  unfolding calc_score
  add_scores host [] total = total
  add_scores host (p ∷ ps) total =
      add_scores host ps (add64 total (calc_score (difference host (get_syscalls sets profiles p))))

  unfoldable pub total_diffs : S → S → List Pod → ℤ
  unfolding calc_score add_scores
  total_diffs pod_syscalls host pods =
      add_scores (union host pod_syscalls) pods (calc_score (difference host pod_syscalls))

  -- `node` is `none` where the node is nil. The status is always a success.
  unfoldable pub score : Pod → Option String → SySched S F → ℤ × SySched S F
  unfolding total_diffs
  score pod none sc = (pos 0, sc)
  score pod (some node) sc =
      let pod_syscalls = get_syscalls sets profiles pod in
      if len pod_syscalls == 0 then (max_int64, sc) else elim (lookup node sc.host_syscalls) [
        | none ↦ (pos 0, sc)
        | some host ↦
            let total = total_diffs pod_syscalls host (lookup_or node [] sc.host_to_pods) in
            (
              total,
              record sc {
                ex_s_avg = float.add sc.ex_s_avg (
                    float.div (float.sub (float.of_int total) sc.ex_s_avg)
                      (float.of_int sc.ex_s_avg_count));
                ex_s_avg_count = add64 sc.ex_s_avg_count (pos 1);
              },
            )
      ]
