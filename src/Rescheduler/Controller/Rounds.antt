-- ===== src/Rescheduler/Controller/Rounds.antt =====
-- One round of evictions of pkg/rescheduler/controller.go, and the history that it leaves.
use plugins_improve.Prelude.{
  ℕ, suc, ◌+◌, ◌≤◌, ℤ, ltb_ℤ, ltb, ◌-ℤ◌, Bool, true, not, ◌≡◌, ◌⊎◌, refl, arith, Option, some, List,
  [], ◌∷◌, String, eq_iff, str_eq_refl, length, all, lookup-insert, Bool-cases, inl, inr,
}
use plugins_improve.Rescheduler.Calculator.{Float64, Pod, Node, Config}
use plugins_improve.Rescheduler.Controller.Decisions.{may_move, analyze_and_decide-may_move}
use plugins_improve.Rescheduler.Migration.{
  History, Decision, ten_minutes, is_migratable, mark_rescheduled, is_recently_rescheduled,
}
use plugins_improve.Rescheduler.Controller.{
  max_rescheduling_pods, NodeMetrics, execute, analyze_and_decide, perform_rescheduling,
}

length-execute :
    (evict : ℕ → Pod → Bool) (clock : ℕ → ℤ) (i : ℕ) (ds : List Decision) (history : History)
    → length (execute evict clock i ds history).0 + i ≤ max_rescheduling_pods
      ⊎ (length (execute evict clock i ds history).0 ≡ 0)
unfolding execute
length-execute evict clock i [] history = ground arith
length-execute evict clock i (d ∷ ds) history = ground (
  arith,
  length-execute evict clock (suc i) ds (mark_rescheduled (clock i) d.pod.name history),
  length-execute evict clock (suc i) ds history,
)

module _ (now : ℤ) where
  marked_now :
      (time : ℤ) (name : String) (history : History)
      → ltb_ℤ (now -ℤ time) ten_minutes ≡ true
      → is_recently_rescheduled now name (mark_rescheduled time name history) ≡ true
  unfolding mark_rescheduled is_recently_rescheduled
  marked_now time name history h =
      ground (arith, lookup-insert name name time history, str_eq_refl name)

  still_marked :
      (time : ℤ) (name other : String) (history : History)
      → ltb_ℤ (now -ℤ time) ten_minutes ≡ true
      → is_recently_rescheduled now other history ≡ true
      → is_recently_rescheduled now other (mark_rescheduled time name history) ≡ true
  unfolding mark_rescheduled is_recently_rescheduled
  still_marked time name other history h k = ground (arith, lookup-insert name other time history)

  module _ (evict : ℕ → Pod → Bool) (clock : ℕ → ℤ)
      (recent : (i : ℕ) → ltb_ℤ (now -ℤ clock i) ten_minutes ≡ true) where
    kept_in_history :
        (i : ℕ) (ds : List Decision) (history : History) (name : String)
        → is_recently_rescheduled now name history ≡ true
        → is_recently_rescheduled now name (execute evict clock i ds history).1 ≡ true
    unfolding execute
    kept_in_history i [] history name h = h
    kept_in_history i (d ∷ ds) history name h = ground (
      arith,
      kept_in_history (suc i) ds history name h,
      kept_in_history (suc i) ds (mark_rescheduled (clock i) d.pod.name history) name
          (still_marked (clock i) d.pod.name name history (recent i) h),
    )

    evicted_in_history :
        (i : ℕ) (ds : List Decision) (history : History)
        → all
            (λ p. is_recently_rescheduled now p.name (execute evict clock i ds history).1)
            (execute evict clock i ds history).0
          ≡ true
    unfolding execute all
    evicted_in_history i [] history = refl
    evicted_in_history i (d ∷ ds) history =
        let marked = mark_rescheduled (clock i) d.pod.name history in
        ground (
          arith,
          evicted_in_history (suc i) ds history,
          evicted_in_history (suc i) ds marked,
          kept_in_history (suc i) ds marked d.pod.name
              (marked_now (clock i) d.pod.name history (recent i)),
        )

evicted-all :
    (evict : ℕ → Pod → Bool) (clock : ℕ → ℤ) (test : Pod → Bool) (i : ℕ) (ds : List Decision)
    (history : History)
    → all (λ d. test d.pod) ds ≡ true
    → all test (execute evict clock i ds history).0 ≡ true
unfolding execute all
evicted-all evict clock test i [] history h = refl
evicted-all evict clock test i (d ∷ ds) history h = ground (
  arith,
  evicted-all evict clock test (suc i) ds history,
  evicted-all evict clock test (suc i) ds (mark_rescheduled (clock i) d.pod.name history),
)

module _ (float : Float64) (config : Config float) where
  runs_there :
      (now : ℤ) (history : History) (ds : List Decision)
      → all (may_move float config now history) ds ≡ true
      → all (λ d. is_migratable float config now history d.pod d.pod.node_name) ds ≡ true
  unfolding is_migratable all
  runs_there now history [] h = refl
  runs_there now history (d ∷ ds) h = ground (
    arith,
    runs_there now history ds,
    eq_iff d.pod.node_name d.source_node,
    str_eq_refl d.pod.node_name,
  )

  not_again :
      (later : ℤ) (history : History) (node : String) (ps : List Pod)
      → all (λ p. is_recently_rescheduled later p.name history) ps ≡ true
      → all (λ p. not (is_migratable float config later history p node)) ps ≡ true
  unfolding is_migratable all
  not_again later history node [] h = refl
  not_again later history node (p ∷ ps) h = ground (arith, not_again later history node ps)

  -- A round for which there are metrics, whatever the API answers: it ends with a list of evicted pods
  -- that has at most ten members, each of which could be moved from its node when the round began. At
  -- a time that is less than ten minutes after every reading of the clock, none of them may be moved
  -- from any node.
  pub perform_rescheduling_lem :
      (evict : ℕ → Pod → Bool) (clock : ℕ → ℤ) (now later : ℤ) (pods : Option (List Pod))
      (nodes : Option (List Node)) (metrics : List (NodeMetrics float config)) (history : History)
      → ((i : ℕ) → ltb_ℤ (later -ℤ clock i) ten_minutes ≡ true)
      → (r : List Pod × History) × (perform_rescheduling float config evict clock now pods nodes
            (some metrics)
            history
          ≡ some r)
        × (length r.0 ≤ max_rescheduling_pods)
        × (all (λ p. is_migratable float config now history p p.node_name) r.0 ≡ true)
        × ((node : String)
            → all (λ p. not (is_migratable float config later r.1 p node)) r.0 ≡ true)
  unfolding perform_rescheduling all
  perform_rescheduling_lem evict clock now later pods nodes metrics history recent =
      let ds = analyze_and_decide float config now history pods nodes metrics in
      elim (Bool-cases (ltb (length metrics) 1)) [
        | inl e ↦ (([], history), ground (arith, e), ground arith, refl, λ node. refl)
        | inr e ↦ (
          execute evict clock 0 ds history,
          ground (arith, e),
          ground (arith, length-execute evict clock 0 ds history),
          evicted-all evict clock (λ p. is_migratable float config now history p p.node_name) 0 ds
              history
              (runs_there now history ds
                (analyze_and_decide-may_move float config now history pods nodes metrics)),
          λ node.
              not_again later (execute evict clock 0 ds history).1 node
                (execute evict clock 0 ds history).0
                (evicted_in_history later evict clock recent 0 ds history),
        )
      ]
