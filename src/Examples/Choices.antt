-- ===== src/Examples/Choices.antt =====
-- The sets of k indices below n in the order of gonum's combinations, and their laws.
use mathlib.Core.Path.{subst}
use native.Mathlib.Decide.{dec_lt}
use plugins_improve.Prelude.{
  ℕ, zero, suc, ◌+◌, length, List, [], ◌∷◌, ◌++◌, map, ◌≡◌, ap, refl, ◌⊎◌, inl, inr, arith,
}
use plugins_improve.Topology.Least.Sets.{Increasing, Among, Lawful}

unfoldable pub choose_from : (first count k : ℕ) → List (List ℕ)
choose_from first count zero = [] ∷ []
choose_from first zero (suc k) = []
choose_from first (suc count) (suc k) =
    map (λ c. first ∷ c) (choose_from (suc first) count k) ++ choose_from (suc first) count (suc k)

abbrev pub choose : ℕ → ℕ → List (List ℕ)
choose n k = choose_from 0 n k

Among-append : (c : List ℕ) (cs ds : List (List ℕ)) → Among c (cs ++ ds) → Among c cs ⊎ Among c ds
Among-append c [] ds m = inr m
Among-append c (d ∷ cs) ds (inl e) = inl (inl e)
Among-append c (d ∷ cs) ds (inr m) = elim (Among-append c cs ds m) [
  | inl l ↦ inl (inr l)
  | inr r ↦ inr r
]

Among-append_left : (c : List ℕ) (cs ds : List (List ℕ)) → Among c cs → Among c (cs ++ ds)
Among-append_left c [] ds m = absurd m
Among-append_left c (d ∷ cs) ds (inl e) = inl e
Among-append_left c (d ∷ cs) ds (inr m) = inr (Among-append_left c cs ds m)

Among-append_right : (c : List ℕ) (cs ds : List (List ℕ)) → Among c ds → Among c (cs ++ ds)
Among-append_right c [] ds m = m
Among-append_right c (d ∷ cs) ds m = inr (Among-append_right c cs ds m)

Among-map :
    (i : ℕ) (c : List ℕ) (cs : List (List ℕ))
    → Among c (map (λ d. i ∷ d) cs)
    → (d : List ℕ) × (c ≡ i ∷ d) × Among d cs
Among-map i c [] m = absurd m
Among-map i c (d ∷ cs) (inl e) = (d, e, inl refl)
Among-map i c (d ∷ cs) (inr m) = let (b, e, n) = Among-map i c cs m in (b, e, inr n)

Among-map_cons :
    (i : ℕ) (d : List ℕ) (cs : List (List ℕ)) → Among d cs → Among (i ∷ d) (map (λ c. i ∷ c) cs)
Among-map_cons i d [] m = absurd m
Among-map_cons i d (c ∷ cs) (inl e) = inl (ap (λ b. i ∷ b) e)
Among-map_cons i d (c ∷ cs) (inr m) = inr (Among-map_cons i d cs m)

Increasing-suc :
    (first last : ℕ) (c : List ℕ) → Increasing (suc first) last c → Increasing first last c
Increasing-suc first last [] h = tt
Increasing-suc first last (i ∷ is) (a, b, rest) = (omega (arith, a), b, rest)

choose_from_sound :
    (first count k last : ℕ) (c : List ℕ)
    → first + count ≡ last
    → Among c (choose_from first count k)
    → Increasing first last c × (length c ≡ k)
unfolding choose_from
choose_from_sound first zero zero last c e (inl m) = rw m (tt, refl)
choose_from_sound first (suc count) zero last c e (inl m) = rw m (tt, refl)
choose_from_sound first zero zero last c e (inr m) = absurd m
choose_from_sound first (suc count) zero last c e (inr m) = absurd m
choose_from_sound first zero (suc k) last c e m = absurd m
choose_from_sound first (suc count) (suc k) last c e m =
    elim (Among-append c (map (λ d. first ∷ d) (choose_from (suc first) count k)) _ m) [
      | inl taken ↦
          let (d, same, n) = Among-map first c (choose_from (suc first) count k) taken in
          let (i, size) = choose_from_sound (suc first) count k last d (omega (arith, e)) n in
          rw same ((omega arith, omega (arith, e), i), omega (arith, size))
      | inr left ↦
          let (i, size) =
            choose_from_sound (suc first) count (suc k) last c (omega (arith, e)) left in
          (Increasing-suc first last c i, size)
    ]

choose_from_complete :
    (first count k last : ℕ) (c : List ℕ)
    → first + count ≡ last
    → Increasing first last c
    → length c ≡ k
    → Among c (choose_from first count k)
unfolding choose_from
choose_from_complete first zero zero last [] e h s = inl refl
choose_from_complete first (suc count) zero last [] e h s = inl refl
choose_from_complete first zero zero last (i ∷ is) e h s = absurd (ground (arith, s))
choose_from_complete first (suc count) zero last (i ∷ is) e h s = absurd (ground (arith, s))
choose_from_complete first zero (suc k) last [] e h s = absurd (ground (arith, s))
choose_from_complete first (suc count) (suc k) last [] e h s = absurd (ground (arith, s))
choose_from_complete first zero (suc k) last (i ∷ is) e (a, b, rest) s =
    absurd (omega (arith, e, a, b))
choose_from_complete first (suc count) (suc k) last (i ∷ is) e (a, b, rest) s =
    elim (dec_lt first i) [
      | yes later ↦
          Among-append_right (i ∷ is) (map (λ d. first ∷ d) (choose_from (suc first) count k)) _ (
            choose_from_complete (suc first) count (suc k) last (i ∷ is) (omega (arith, e))
              (later, b, rest) s)
      | no here ↦
          let same : i ≡ first = omega (arith, a, here) in
          Among-append_left (i ∷ is) (map (λ d. first ∷ d) (choose_from (suc first) count k)) _ (
            rw same (
              Among-map_cons first is (choose_from (suc first) count k) (
                choose_from_complete (suc first) count k last is (omega (arith, e))
                  (subst (λ j. Increasing (suc j) last is) (same) rest) (omega (arith, s)))))
    ]

pub choose-Lawful : Lawful choose
choose-Lawful = record {
  sound = λ n k c m. choose_from_sound 0 n k n c (omega arith) m;
  complete = λ n k c h s. choose_from_complete 0 n k n c (omega arith) h s;
}
