-- ===== src/Controllers/PodGroup/Phases.antt =====
-- The phases of a pod group (pkg/controllers/podgroup_controller.go).
use plugins_improve.Prelude.{
  ℕ, suc, ◌+◌, ◌^◌, ◌≤◌, ◌<◌, ◌≡◌, refl, ◌∙◌, pos, ◌+ℤ◌, ◌≤ℤ◌, wrap32, wrap32_id, ltb, leb, Bool,
  true, false, ◌&&◌, ◌||◌, Option, none, some, List, [], ◌∷◌, arith, Option-cases, inl, inr, length,
  if◌then◌else◌,
}
use plugins_improve.Controllers.PodGroup.{
  Phase, fresh, pending, scheduling, running, finished, failed, pod_running, pod_succeeded,
  pod_failed, Pod, PodGroup, get_current_pod_stats, active_phase, reconcile_active,
  reconcile_pending, fill_occupied_obj, reconcile,
}

-- How many of the pods are in a phase.
abbrev pub is_running : Pod → Bool
is_running p = elim p.phase [ pod_running ↦ true | _ ↦ false ]

abbrev pub is_succeeded : Pod → Bool
is_succeeded p = elim p.phase [ pod_succeeded ↦ true | _ ↦ false ]

abbrev pub is_failed : Pod → Bool
is_failed p = elim p.phase [ pod_failed ↦ true | _ ↦ false ]

unfoldable pub number : (Pod → Bool) → List Pod → ℕ
number test [] = 0
number test (p ∷ ps) = let rest = number test ps in if test p then suc rest else rest

one_more : (n : ℕ) → n + 1 < 2 ^ 31 → wrap32 (pos n +ℤ pos 1) ≡ pos (suc n)
unfolding ◌+ℤ◌
one_more n h = ground (arith, wrap32_id (pos (suc n)) (omega arith, omega arith))

get_current_pod_stats_from :
    (ps : List Pod) (r s f : ℕ)
    → r + s + f + length ps < 2 ^ 31
    → get_current_pod_stats ps (pos r, pos s, pos f) ≡ (
      pos (r + number is_running ps),
      pos (s + number is_succeeded ps),
      pos (f + number is_failed ps),
    )
unfolding get_current_pod_stats number
get_current_pod_stats_from [] r s f h = ground arith
get_current_pod_stats_from (p ∷ ps) r s f h = ground (
  arith,
  one_more r,
  one_more s,
  one_more f,
  get_current_pod_stats_from ps r s f,
  get_current_pod_stats_from ps (suc r) s f,
  get_current_pod_stats_from ps r (suc s) f,
  get_current_pod_stats_from ps r s (suc f),
)

plus : (a b : ℕ) → a + b < 2 ^ 31 → wrap32 (pos a +ℤ pos b) ≡ pos (a + b)
unfolding ◌+ℤ◌
plus a b h = ground (arith, wrap32_id (pos (a + b)) (omega arith, omega arith))

number_total :
    (ps : List Pod)
    → number is_running ps + number is_succeeded ps + number is_failed ps ≤ length ps
unfolding number
number_total [] = omega arith
number_total (p ∷ ps) = ground (arith, number_total ps)

-- The phase of a group of which so many pods exist, run, have succeeded and have failed.
unfoldable pub phase_for : ℕ → ℕ → ℕ → ℕ → ℕ → Phase
phase_for minimum number running_number succeeded_number failed_number =
    if ltb number minimum
    then pending
    else if leb minimum succeeded_number
    then finished
    else if ltb 0 failed_number && leb minimum (failed_number + running_number + succeeded_number)
    then failed
    else if leb minimum (succeeded_number + running_number)
    then running
    else scheduling

active_phase_lem :
    (pg : PodGroup) (minimum n r s f : ℕ)
    → pg.min_member ≡ pos minimum
    → pg.running_pods ≡ pos r
    → pg.succeeded_pods ≡ pos s
    → pg.failed_pods ≡ pos f
    → f + r + s < 2 ^ 31
    → minimum ≤ n
    → active_phase pg ≡ phase_for minimum n r s f
unfolding active_phase phase_for
active_phase_lem pg minimum n r s f m rp sp fp l k =
    rw (m, rp, sp, fp)
      (rw (plus s r (omega arith), plus f r (omega arith), plus (f + r) s l) (ground arith))

-- An active group of fewer than 2 ^ 31 pods gets the counts of its pods and the first phase that fits:
-- pending with fewer pods than the minimum, finished when at least the minimum have succeeded, failed
-- when one has failed and at least the minimum have failed, run or succeeded, running when at least
-- the minimum run or have succeeded, and scheduling otherwise.
pub reconcile_active_lem :
    (pods : List Pod) (pg : PodGroup) (minimum : ℕ)
    → pg.min_member ≡ pos minimum
    → length pods < 2 ^ 31
    → let after = reconcile_active pods pg in
      (after.phase
        ≡ phase_for minimum
            (length pods)
            (number is_running pods)
            (number is_succeeded pods)
            (number is_failed pods))
      × (after.running_pods ≡ pos (number is_running pods))
      × (after.succeeded_pods ≡ pos (number is_succeeded pods))
      × (after.failed_pods ≡ pos (number is_failed pods))
unfolding reconcile_active phase_for
reconcile_active_lem pods pg minimum m l =
    let stats = get_current_pod_stats_from pods 0 0 0 (omega arith) in
    ground (
      arith,
      stats,
      number_total pods,
      active_phase_lem
          (record pg {
            running_pods = pos (number is_running pods);
            succeeded_pods = pos (number is_succeeded pods);
            failed_pods = pos (number is_failed pods);
          })
          minimum (length pods) (number is_running pods) (number is_succeeded pods)
          (number is_failed pods) m refl refl refl,
    )

abbrev pub is_scheduling : Phase → Bool
is_scheduling scheduling = true
is_scheduling _ = false

abbrev pub is_early : Phase → Bool
is_early fresh = true
is_early pending = true
is_early _ = false

abbrev pub is_terminal : Phase → Bool
is_terminal finished = true
is_terminal failed = true
is_terminal _ = false

reconcile_no_panic :
    (c : List Pod) (pg : PodGroup) → pos 1 ≤ℤ pg.min_member → reconcile c pg ≡ none → ⊥
unfolding reconcile reconcile_pending
reconcile_no_panic c pg m e = ground arith

reconcile-min_member :
    (c : List Pod) (pg pg' : PodGroup) → reconcile c pg ≡ some pg' → pg'.min_member ≡ pg.min_member
unfolding reconcile reconcile_pending fill_occupied_obj reconcile_active
reconcile-min_member c pg pg' e = ground arith

reconcile_early :
    (c : List Pod) (pg pg' : PodGroup)
    → is_early pg.phase ≡ true
    → reconcile c pg ≡ some pg'
    → (is_early pg'.phase || is_scheduling pg'.phase) ≡ true
unfolding reconcile reconcile_pending fill_occupied_obj
reconcile_early c pg pg' s e = ground arith

-- One reconciliation after another, each with the labelled pods of the cluster at that time; `none` is
-- a panic.
unfoldable pub run : List (List Pod) → PodGroup → Option PodGroup
run [] pg = some pg
run (c ∷ cs) pg = elim (reconcile c pg) [ none ↦ none | some pg' ↦ run cs pg' ]

-- Whether the group is in the phase Scheduling at some point of such a run.
unfoldable pub scheduled_in : List (List Pod) → PodGroup → Bool
scheduled_in [] pg = is_scheduling pg.phase
scheduled_in (c ∷ cs) pg =
    is_scheduling pg.phase
    || elim (reconcile c pg) [ none ↦ false | some pg' ↦ scheduled_in cs pg' ]

scheduled_now :
    (cs : List (List Pod)) (pg : PodGroup)
    → is_scheduling pg.phase ≡ true
    → scheduled_in cs pg ≡ true
unfolding scheduled_in
scheduled_now [] pg s = s
scheduled_now (c ∷ cs) pg s = ground arith

-- A finished or failed group stays as it is, whatever pods later reconciliations see.
pub run_terminal :
    (cs : List (List Pod)) (pg : PodGroup) → is_terminal pg.phase ≡ true → run cs pg ≡ some pg
unfolding run reconcile
run_terminal [] pg t = refl
run_terminal (c ∷ cs) pg t = ground (arith, run_terminal cs pg t)

-- With a minimum of at least one member, which the validation of the object asks for, no sequence of
-- reconciliations panics, and the minimum stays.
pub run_total :
    (cs : List (List Pod)) (pg : PodGroup)
    → pos 1 ≤ℤ pg.min_member
    → (pg' : PodGroup) × (run cs pg ≡ some pg') × (pg'.min_member ≡ pg.min_member)
unfolding run
run_total [] pg m = (pg, refl, refl)
run_total (c ∷ cs) pg m = elim (Option-cases (reconcile c pg)) [
  | inl e ↦ absurd (reconcile_no_panic c pg m e)
  | inr (after, e) ↦
      let k = reconcile-min_member c pg after e in
      let (pg', f, l) = run_total cs after (rw k m) in (pg', ground arith, l ∙ k)
]

-- A group that starts as a new or a pending one and is in another phase after some reconciliations was
-- in the phase Scheduling at some point: it never gets to Running, Failed or Finished without.
pub scheduled_first :
    (cs : List (List Pod)) (pg pg' : PodGroup)
    → is_early pg.phase ≡ true
    → run cs pg ≡ some pg'
    → is_early pg'.phase ≡ false
    → scheduled_in cs pg ≡ true
unfolding run scheduled_in
scheduled_first [] pg pg' s e f = ground arith
scheduled_first (c ∷ cs) pg pg' s e f = elim (Option-cases (reconcile c pg)) [
  | inl m ↦ ground arith
  | inr (after, m) ↦
      ground (
        arith,
        reconcile_early c pg after s m,
        scheduled_first cs after pg',
        scheduled_now cs after,
      )
]
