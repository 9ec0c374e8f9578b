-- ===== src/Preemption/Toleration/Protected.antt =====
-- Which pods the toleration of their class keeps from being selected (SelectVictimsOnNode of
-- pkg/preemptiontoleration/preemption_toleration.go).
use plugins_improve.Prelude.{
  ℕ, ◌*◌, ◌^◌, ◌≡◌, ℤ, pos, negsuc, ◌+ℤ◌, leb, ltb_ℤ, wrap64_id, Bool, true, false, ◌&&◌, not,
  Option, none, some, List, [], ◌∷◌, String, str_eq, arith, all, Option-cases, Bool-cases, inl, inr,
  if◌then◌else◌,
}
use plugins_improve.Preemption.Pdb.{SelectorApi, Pdb}
use plugins_improve.Preemption.Simulation.{Handle}
use plugins_improve.Preemption.Reprieve.{victims_of}
use plugins_improve.Preemption.Toleration.{
  Pod, PriorityClass, Policy, parse_preemption_toleration_policy, toleration_duration, tolerates,
  exempted_from_preemption, select_victims_on_node,
}
use plugins_improve.Preemption.Toleration.Selection.{preemptable, victims_are_preemptable}

-- Whether a toleration of so many seconds since an instant is not over. A negative one never ends, one
-- that does not fit in nanoseconds of 64 bits is left out.
abbrev pub lasts : ℤ → ℤ → ℤ → Bool
lasts (negsuc n) t now = true
lasts (pos seconds) t now = leb seconds 9223372036 && ltb_ℤ now (t +ℤ pos (seconds * 10 ^ 9))

-- A pod that is not scheduled is protected for any time.
abbrev pub waits : Policy → Option ℤ → ℤ → Bool
waits policy none now = true
waits policy (some t) now = lasts policy.toleration_seconds t now

-- Whether the policy of the pod's class protects it from a preemptor of a priority: the priority is
-- below the minimum of the policy, and the toleration is not over.
abbrev pub protected : (String → Option PriorityClass) → ℤ → ℤ → Pod → Bool
protected lister priority now v =
    not (str_eq v.priority_class_name "") && elim (lister v.priority_class_name) [
      | none ↦ false
      | some pc ↦ elim (parse_preemption_toleration_policy pc) [
        | none ↦ false
        | some policy ↦
            ltb_ℤ priority policy.minimum_preemptable_priority && waits policy v.scheduled_at now
      ]
    ]

lasts-tolerates :
    (seconds t now : ℤ)
    → lasts seconds t now ≡ true
    → (if ltb_ℤ seconds (pos 0) then true else ltb_ℤ now (t +ℤ toleration_duration seconds)) ≡ true
lasts-tolerates (negsuc n) t now w = ground arith
lasts-tolerates (pos seconds) t now w = elim (Bool-cases (leb seconds 9223372036)) [
  | inl fits ↦
      let exact = wrap64_id (pos (seconds * 10 ^ 9)) (ground (arith, fits), omega arith) in
      rw exact (ground (arith, w, fits))
  | inr large ↦ absurd (ground (arith, w, large))
]

waits-tolerates :
    (policy : Policy) (v preemptor : Pod) (now : ℤ)
    → ltb_ℤ preemptor.priority policy.minimum_preemptable_priority ≡ true
    → waits policy v.scheduled_at now ≡ true
    → tolerates policy v preemptor now ≡ true
unfolding tolerates
waits-tolerates policy v preemptor now p w = elim (Option-cases v.scheduled_at) [
  | inl e ↦ ground (arith, e)
  | inr (t, e) ↦ ground (arith, e, lasts-tolerates policy.toleration_seconds t now)
]

protected-exempted :
    (lister : String → Option PriorityClass) (v preemptor : Pod) (now : ℤ)
    → protected lister preemptor.priority now v ≡ true
    → exempted_from_preemption lister v preemptor now ≡ some true
unfolding exempted_from_preemption
protected-exempted lister v preemptor now h = elim (Option-cases (lister v.priority_class_name)) [
  | inl e ↦ ground (arith, e)
  | inr (pc, e) ↦ elim (Option-cases (parse_preemption_toleration_policy pc)) [
    | inl f ↦ ground (arith, e, f)
    | inr (policy, f) ↦ ground (arith, e, f, waits-tolerates policy v preemptor now)
  ]
]

all-protected :
    (lister : String → Option PriorityClass) (now : ℤ) (preemptor : Pod) (vs : List Pod)
    → all (preemptable (λ p. exempted_from_preemption lister p preemptor now) preemptor) vs ≡ true
    → all (λ v. not (protected lister preemptor.priority now v)) vs ≡ true
unfolding all
all-protected lister now preemptor [] h = h
all-protected lister now preemptor (v ∷ vs) h =
    ground (arith, all-protected lister now preemptor vs, protected-exempted lister v preemptor now)

-- No victim is protected by the policy of its class: neither a scheduled pod whose toleration of up to
-- 9223372036 seconds is not over, nor one with a negative toleration, nor one that is not scheduled,
-- where the priority of the preemptor is below the minimum of the policy.
pub victims_are_unprotected :
    (S : Type 0) (h : Handle Pod S) (sel : SelectorApi) (pdbs : List (Pdb sel))
    (lister : String → Option PriorityClass) (now : ℤ) (preemptor : Pod) (s : S)
    (victims : List Pod) (n : ℕ)
    → select_victims_on_node h sel pdbs lister now preemptor s ≡ victims_of victims n
    → all (λ v. not (protected lister preemptor.priority now v)) victims ≡ true
victims_are_unprotected S h sel pdbs lister now preemptor s victims n e =
    all-protected lister now preemptor victims
      (victims_are_preemptable S h sel pdbs lister now preemptor s victims n e)
