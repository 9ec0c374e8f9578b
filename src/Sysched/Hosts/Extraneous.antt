-- ===== src/Sysched/Hosts/Extraneous.antt =====
-- When Score of pkg/sysched/sysched.go finds no extraneous system calls.
use plugins_improve.Prelude.{
  ℕ, ◌+◌, ◌^◌, ◌<◌, ◌==◌, pos, add64_small, true, false, not, ◌&&◌, some, List, [], ◌∷◌, String,
  ◌≡◌, ◌↔◌, refl, ap, arith, lookup, lookup_or, All,
}
use plugins_improve.Floats.{Float64}
use plugins_improve.Sysched.Profiles.{CallSets, Pod, Profiles, get_syscalls}
use plugins_improve.Sysched.Hosts.{
  SySched, new_sy_sched, add_scores, calc_score, total_diffs, score,
}
use plugins_improve.Sysched.Hosts.Tracking.{any_call, Event, run}
use plugins_improve.Sysched.Hosts.Tracking.Steps.{run-Tracks_from_start}

module _ (sets : CallSets) (profiles : Profiles) (float : Float64) where
  open sets use {
    S, empty, union, difference, len, member, member-difference, member-union, len-member,
  }
  open float use {F}

  -- The number of calls that the pods do not make and the host does.
  unfoldable pub extraneous : S → List Pod → ℕ
  extraneous host [] = 0
  extraneous host (p ∷ ps) =
      len (difference host (get_syscalls sets profiles p)) + extraneous host ps

  -- The same of a new pod and the pods of its host, together with it.
  abbrev pub all_extraneous : S → S → List Pod → ℕ
  all_extraneous calls host pods = len (difference host calls) + extraneous (union host calls) pods

  add_scores_lem :
      (host : S) (ps : List Pod) (a : ℕ)
      → a + extraneous host ps < 2 ^ 63
      → add_scores sets profiles float host ps (pos a) ≡ pos (a + extraneous host ps)
  unfolding add_scores calc_score extraneous
  add_scores_lem host [] a b = ap pos (omega arith)
  add_scores_lem host (p ∷ ps) a b =
      let n = len (difference host (get_syscalls sets profiles p)) in
      ground (
        arith,
        add64_small a n (omega (arith, b)),
        add_scores_lem host ps (a + n) (omega (arith, b)),
      )

  Covered : S → S → Type 0
  Covered s t = (c : String) → (member c s && not (member c t)) ≡ false

  len-Covered : (s t : S) → (len (difference s t) ≡ 0) ↔ Covered s t
  unfolding Covered
  len-Covered s t = (
    λ e c. ground (arith, (len-member (difference s t)).0 e c, member-difference c s t),
    λ h. (len-member (difference s t)).1 (λ c. ground (arith, h c, member-difference c s t)),
  )

  -- Two pods make the same system calls.
  abbrev pub SameCalls : Pod → Pod → Type 0
  SameCalls p q =
      (c : String)
      → member c (get_syscalls sets profiles p) ≡ member c (get_syscalls sets profiles q)

  every_pod_same :
      (pod : Pod) (host : S) (ps : List Pod)
      → ((c : String)
          → any_call sets profiles float c ps ≡ true
          → member c (get_syscalls sets profiles pod) ≡ true)
      → extraneous (union host (get_syscalls sets profiles pod)) ps ≡ 0
      → All (λ p. SameCalls p pod) ps
  unfolding extraneous any_call Covered
  every_pod_same pod host [] h e = tt
  every_pod_same pod host (p ∷ ps) h e =
      let calls = get_syscalls sets profiles pod in
      let covers =
        (len-Covered (union host calls) (get_syscalls sets profiles p)).0 (omega (arith, e)) in
      (
        λ c. ground (arith, h c, covers c, member-union c host calls),
        every_pod_same pod host ps (λ c g. h c (ground (arith, g))) (omega (arith, e)),
      )

  same_calls :
      (pod : Pod) (ps : List Pod)
      → All (λ p. SameCalls p pod) ps
      → (c : String) → any_call sets profiles float c ps ≡ true
      → member c (get_syscalls sets profiles pod) ≡ true
  unfolding any_call
  same_calls pod [] a c g = ground (arith, g)
  same_calls pod (p ∷ ps) a c g = ground (arith, a.0 c, same_calls pod ps a.1 c)

  none_extraneous :
      (pod : Pod) (host : S) (ps : List Pod)
      → Covered host (get_syscalls sets profiles pod)
      → All (λ p. SameCalls p pod) ps
      → extraneous (union host (get_syscalls sets profiles pod)) ps ≡ 0
  unfolding extraneous Covered
  none_extraneous pod host [] h a = refl
  none_extraneous pod host (p ∷ ps) h a =
      let calls = get_syscalls sets profiles pod in
      let covers : Covered (union host calls) (get_syscalls sets profiles p) =
        λ c. ground (arith, h c, a.0 c, member-union c host calls) in
      let n = (len-Covered (union host calls) (get_syscalls sets profiles p)).1 covers in
      omega (arith, n, none_extraneous pod host ps h a.1)

  -- The calls of a host that are those of its pods: nothing is extraneous exactly where all make the
  -- same calls.
  none_extraneous_iff :
      (pod : Pod) (host : S) (ps : List Pod)
      → ((c : String) → member c host ≡ any_call sets profiles float c ps)
      → (all_extraneous (get_syscalls sets profiles pod) host ps ≡ 0)
        ↔ All (λ p. SameCalls p pod) ps
  unfolding Covered
  none_extraneous_iff pod host ps m =
      let calls = get_syscalls sets profiles pod in
      (
        λ e.
            let covers = (len-Covered host calls).0 (omega (arith, e)) in
            every_pod_same pod host ps (λ c g. ground (arith, covers c, m c)) (omega (arith, e)),
        λ a.
            let covers : Covered host calls = λ c. ground (arith, same_calls pod ps a c, m c) in
            omega (arith, (len-Covered host calls).1 covers, none_extraneous pod host ps covers a),
      )

  score_value :
      (pod : Pod) (node : String) (sc : SySched S F) (host : S)
      → (len (get_syscalls sets profiles pod) == 0) ≡ false
      → lookup node sc.host_syscalls ≡ some host
      → all_extraneous (get_syscalls sets profiles pod) host (lookup_or node [] sc.host_to_pods)
        < 2 ^ 63
      → (score sets profiles float pod (some node) sc).0
        ≡ pos (
            all_extraneous
              (get_syscalls sets profiles pod)
              host
              (lookup_or node [] sc.host_to_pods))
  unfolding score total_diffs calc_score
  score_value pod node sc host n e b = ground (
    arith,
    n,
    e,
    add_scores_lem (union host (get_syscalls sets profiles pod)) (lookup_or node [] sc.host_to_pods)
        (len (difference host (get_syscalls sets profiles pod))) b,
  )

  -- After any sequence of pod events from the start, for a pod with some system call and a node that
  -- has had a pod: Score is 0 exactly where every pod on the node makes the same system calls as the
  -- pod, as long as the sum of the extraneous calls is in the range of int64.
  pub score-SameCalls :
      (es : List Event) (pod : Pod) (node : String) (host : S)
      → let sc = run sets profiles float (new_sy_sched sets profiles float) es in
        (len (get_syscalls sets profiles pod) == 0) ≡ false
        → lookup node sc.host_syscalls ≡ some host
        → all_extraneous (get_syscalls sets profiles pod) host (lookup_or node [] sc.host_to_pods)
          < 2 ^ 63
        → ((score sets profiles float pod (some node) sc).0 ≡ pos 0)
          ↔ All (λ p. SameCalls p pod) (lookup_or node [] sc.host_to_pods)
  unfolding lookup_or
  score-SameCalls es pod node host n e b =
      let sc = run sets profiles float (new_sy_sched sets profiles float) es in
      let (k, (d, h, m)) = run-Tracks_from_start sets profiles float es node in
      let same =
        none_extraneous_iff pod host (lookup_or node [] sc.host_to_pods)
          (λ c. ground (arith, m c, e)) in
      let value = score_value pod node sc host n e b in
      (λ z. same.0 (ground (arith, z, value)), λ a. ground (arith, same.1 a, value))
