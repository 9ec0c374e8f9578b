-- ===== src/Scores/Range.antt =====
-- What NormalizeScore of pkg/noderesources/allocatable.go makes of the scores.
use plugins_improve.Prelude.{
  ℕ, ◌+◌, ◌-◌, ◌*◌, ◌/◌, ◌^◌, ◌≤◌, ◌<◌, ◌==◌, ℤ, pos, negsuc, pos_part, neg_part, ◌≤ℤ◌, ◌-ℤ◌, ltb_ℤ,
  wrap64, sub64, quot64, add64_small, mul64_small, All, List, [], ◌∷◌, String, map, ◌≡◌, refl, ◌∙◌,
  sym, arith, ◌⊎◌, ◌≢◌, inl, inr, Bool-cases, if◌then◌else◌,
}
use plugins_improve.Scores.{
  max_int64, min_score, highest_from, lowest_from, rescale, normalize_score,
}

-- A score whose distances to others can be multiplied by 100.
abbrev pub Small : ℤ → Type 0
Small s = (pos_part s < 2 ^ 54) × (neg_part s < 2 ^ 54)

-- `s - lowest`, where it is not negative.
abbrev pub above : ℤ → ℤ → ℕ
above lowest s = (pos_part s + neg_part lowest) - (neg_part s + pos_part lowest)

sub64-above :
    (s lowest : ℤ) → Small s → Small lowest → lowest ≤ℤ s → sub64 s lowest ≡ pos (above lowest s)
unfolding sub64 ◌-ℤ◌ wrap64
sub64-above (pos a) (pos b) h k l = ground arith
sub64-above (pos a) (negsuc b) h k l = ground arith
sub64-above (negsuc a) (pos b) h k l = ground arith
sub64-above (negsuc a) (negsuc b) h k l = ground arith

-- A distance in hundredths of a range.
unfoldable pub scale : ℕ → ℕ → ℕ
scale range d = if range == 0 then 0 else d * 100 / range

-- The share of the range that lies below a score.
abbrev pub share : ℤ → ℤ → ℤ → ℕ
share highest lowest s = scale (above lowest highest) (above lowest s)

above_mono : (lowest s t : ℤ) → s ≤ℤ t → above lowest s ≤ above lowest t
above_mono lowest s t h = omega (arith, h)

div_mono : (a b n : ℕ) → 0 < n → a ≤ b → a / n ≤ b / n
div_mono a b n p h = grind arith

div_full : (n : ℕ) → 0 < n → n * 100 / n ≡ 100
div_full n p = grind arith

scale_mono : (range a b : ℕ) → a ≤ b → scale range a ≤ scale range b
unfolding scale
scale_mono range a b h = ground (arith, div_mono (a * 100) (b * 100) range)

scale_le : (range d : ℕ) → d ≤ range → scale range d ≤ 100
unfolding scale
scale_le range d h = ground (arith, div_mono (d * 100) (range * 100) range, div_full range)

rescale_lem :
    (highest lowest s : ℤ)
    → Small highest
    → Small lowest
    → Small s
    → lowest ≤ℤ s
    → s ≤ℤ highest
    → rescale highest lowest s ≡ pos (share highest lowest s)
unfolding rescale quot64 scale
rescale_lem highest lowest s a b c l u =
    let d = above lowest s in
    let range = above lowest highest in
    rw
      (
        sub64-above s lowest c b l,
        sub64-above highest lowest a b (omega (arith, l, u)),
        mul64_small d 100 (omega (arith, b, c)),
      )
      (ground (arith, add64_small (d * 100 / range) 0))

-- A value is one of the scores.
abbrev pub Attains : ℤ → List (String × ℤ) → Type 0
Attains v [] = ⊥
Attains v (e ∷ es) = (e.1 ≡ v) ⊎ Attains v es

larger :
    (h score : ℤ)
    → let m = if ltb_ℤ h score then score else h in
      (h ≤ℤ m) × (score ≤ℤ m) × ((m ≡ h) ⊎ (m ≡ score))
larger h score = elim (Bool-cases (ltb_ℤ h score)) [
  | inl e ↦ rw e (ground (arith, e))
  | inr e ↦ rw e (ground (arith, e))
]

smaller_one :
    (l score : ℤ)
    → let m = if ltb_ℤ score l then score else l in
      (m ≤ℤ l) × (m ≤ℤ score) × ((m ≡ l) ⊎ (m ≡ score))
smaller_one l score = elim (Bool-cases (ltb_ℤ score l)) [
  | inl e ↦ rw e (ground (arith, e))
  | inr e ↦ rw e (ground (arith, e))
]

-- The result of a loop is its start or one of the scores.
Attains-step :
    (m h score v : ℤ) (name : String) (rest : List (String × ℤ))
    → (m ≡ h) ⊎ (m ≡ score)
    → (v ≡ m) ⊎ Attains v rest
    → (v ≡ h) ⊎ Attains v ((name, score) ∷ rest)
Attains-step m h score v name rest c (inr a) = inr (inr a)
Attains-step m h score v name rest (inl e) (inl d) = inl (d ∙ e)
Attains-step m h score v name rest (inr e) (inl d) = inr (inl (sym (d ∙ e)))

highest_from_lem :
    (h : ℤ) (scores : List (String × ℤ))
    → (h ≤ℤ highest_from h scores)
      × All (λ e. e.1 ≤ℤ highest_from h scores) scores
      × ((highest_from h scores ≡ h) ⊎ Attains (highest_from h scores) scores)
unfolding highest_from
highest_from_lem h [] = (omega arith, tt, inl refl)
highest_from_lem h ((name, score) ∷ rest) =
    let (a, b, c) = larger h score in
    let (d, e, f) = highest_from_lem (if ltb_ℤ h score then score else h) rest in
    (omega (arith, a, d), (omega (arith, b, d), e), Attains-step _ h score _ name rest c f)

lowest_from_lem :
    (l : ℤ) (scores : List (String × ℤ))
    → (lowest_from l scores ≤ℤ l)
      × All (λ e. lowest_from l scores ≤ℤ e.1) scores
      × ((lowest_from l scores ≡ l) ⊎ Attains (lowest_from l scores) scores)
unfolding lowest_from
lowest_from_lem l [] = (omega arith, tt, inl refl)
lowest_from_lem l ((name, score) ∷ rest) =
    let (a, b, c) = smaller_one l score in
    let (d, e, f) = lowest_from_lem (if ltb_ℤ score l then score else l) rest in
    (omega (arith, a, d), (omega (arith, b, d), e), Attains-step _ l score _ name rest c f)

Small-Attains :
    (v : ℤ) (scores : List (String × ℤ)) → All (λ e. Small e.1) scores → Attains v scores → Small v
Small-Attains v [] ss h = absurd h
Small-Attains v (e ∷ es) (s, ss) (inl h) = ground (arith, s, h)
Small-Attains v (e ∷ es) (s, ss) (inr h) = Small-Attains v es ss h

-- An entry with its share of the range.
abbrev pub with_share : ℤ → ℤ → String × ℤ → String × ℤ
with_share highest lowest e = (e.0, pos (share highest lowest e.1))

shares :
    (highest lowest : ℤ) (scores : List (String × ℤ))
    → Small highest
    → Small lowest
    → All (λ e. Small e.1) scores
    → All (λ e. lowest ≤ℤ e.1) scores
    → All (λ e. e.1 ≤ℤ highest) scores
    → (map {B = String × ℤ} (λ s. (s.0, rescale highest lowest s.1)) scores
        ≡ map (with_share highest lowest) scores)
      × All (λ e. share highest lowest e.1 ≤ 100) scores
shares highest lowest [] h l ss ls us = (refl, tt)
shares highest lowest (e ∷ es) h l (s, ss) (b, ls) (u, us) =
    let (same, small) = shares highest lowest es h l ss ls us in
    (
      rw (rescale_lem highest lowest e.1 h l s b u, same) refl,
      (scale_le (above lowest highest) (above lowest e.1) (omega (arith, u)), small),
    )

above_min : (v s : ℤ) → Small s → s ≤ℤ v → v ≢ min_score
above_min v s (a, b) h e = omega (arith, b, rw e at h)

below_max : (v s : ℤ) → Small s → v ≤ℤ s → v ≢ max_int64
below_max v s (a, b) h e = omega (arith, a, rw e at h)

scale-range : (range : ℕ) → (range ≡ 0) ⊎ (scale range range ≡ 100)
unfolding scale
scale-range range = elim (Bool-cases (range == 0)) [
  | inl e ↦ inl (ground (arith, e))
  | inr e ↦ inr (ground (arith, e, div_full range))
]

-- Where the scores are below 2 ^ 54 in absolute value, the normalised score of each node is its share
-- of the range between the lowest and the highest score: from 0 to 100, in the order of the scores, 0
-- for the lowest and 100 for the highest, if not all are equal; no step overflows.
pub normalize_score_lem :
    (first : String × ℤ) (rest : List (String × ℤ))
    → All (λ e. Small e.1) (first ∷ rest)
    → let scores = first ∷ rest in
      let highest = highest_from min_score scores in
      let lowest = lowest_from max_int64 scores in
      (normalize_score scores ≡ map (with_share highest lowest) scores)
      × Attains highest scores
      × Attains lowest scores
      × All (λ e. share highest lowest e.1 ≤ 100) scores
      × ((s t : ℤ) → s ≤ℤ t → share highest lowest s ≤ share highest lowest t)
      × (share highest lowest lowest ≡ 0)
      × ((above lowest highest ≡ 0) ⊎ (share highest lowest highest ≡ 100))
unfolding normalize_score scale
normalize_score_lem first rest small =
    let scores = first ∷ rest in
    let highest = highest_from min_score scores in
    let lowest = lowest_from max_int64 scores in
    let (a, us, c) = highest_from_lem min_score scores in
    let (d, ls, f) = lowest_from_lem max_int64 scores in
    let top : Attains highest scores = elim c [
      | inr t ↦ t
      | inl e ↦ absurd (above_min highest first.1 small.0 us.0 e)
    ] in
    let bottom : Attains lowest scores = elim f [
      | inr t ↦ t
      | inl e ↦ absurd (below_max lowest first.1 small.0 ls.0 e)
    ] in
    let (same, bounded) =
      shares highest lowest scores (Small-Attains highest scores small top)
        (Small-Attains lowest scores small bottom) small ls us in
    (
      same,
      top,
      bottom,
      bounded,
      λ s t h.
          scale_mono (above lowest highest) (above lowest s) (above lowest t)
            (above_mono lowest s t h),
      ground arith,
      scale-range (above lowest highest),
    )
