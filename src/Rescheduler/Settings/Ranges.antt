-- ===== src/Rescheduler/Settings/Ranges.antt =====
-- The ranges of the configuration of pkg/rescheduler/rescheduler.go.
use plugins_improve.Prelude.{
  pos, ◌⊎◌, Bool, true, false, none, some, ◌≡◌, arith, Option-cases, Bool-cases, str_eq, none, inl,
  inr,
}
use plugins_improve.Floats.{Float64}
use plugins_improve.Rescheduler.Settings.Parsing.{
  ConfigObject, nil, unknown, other, Decoders, no_args, apply_parsed, parse_config_data,
  parse_plugin_config, configured,
}
use plugins_improve.Rescheduler.Settings.{
  ReschedulerConfig, ReschedulerArgs, and_then, set_limited, set_cpu_threshold,
  set_memory_threshold, set_switches, set_cpu_score_weight, set_memory_score_weight, set_thresholds,
  set_weights, set_limits, set_all, set_rest, validate_config, apply_plugin_config,
}

module _ (float : Float64)
    (asym : (a b : float.F) → float.less a b ≡ true → float.less b a ≡ false) where
  open float use {F, of_int, less}

  abbrev pub IsThreshold : F → Type 0
  IsThreshold t = (less (of_int (pos 0)) t ≡ true) × (less (of_int (pos 100)) t ≡ false)

  abbrev pub IsWeight : F → Type 0
  IsWeight w = (less w (of_int (pos 0)) ≡ false) × (less (of_int (pos 1)) w ≡ false)

  -- Thresholds above 0 and up to 100, and weights from 0 to 1.
  abbrev pub InRange : ReschedulerConfig float → Type 0
  InRange c =
      IsThreshold c.cpu_threshold
      × IsThreshold c.memory_threshold
      × IsWeight c.cpu_score_weight
      × IsWeight c.memory_score_weight

  and_then-InRange :
      (r : ReschedulerConfig float × Bool)
      (f : ReschedulerConfig float → ReschedulerConfig float × Bool)
      → InRange r.0
      → ((c : ReschedulerConfig float) → InRange c → InRange (f c).0)
      → InRange (and_then float r f).0
  and_then-InRange (c, false) f h keeps = h
  and_then-InRange (c, true) f h keeps = keeps c h

  -- The value after an argument is the argument, above 0 and within the limit, or the old value.
  set_limited_cases :
      (limit arg old t : F)
      → set_limited float limit arg old ≡ some t
      → ((arg ≡ t) × ((less (of_int (pos 0)) arg ≡ true) × (less limit arg ≡ false))) ⊎ (old ≡ t)
  unfolding set_limited
  set_limited_cases limit arg old t e = ground arith

  set_limited-IsThreshold :
      (arg old t : F)
      → set_limited float (of_int (pos 100)) arg old ≡ some t
      → IsThreshold old
      → IsThreshold t
  set_limited-IsThreshold arg old t e h = elim (set_limited_cases (of_int (pos 100)) arg old t e) [
    | inl (same, bounds) ↦ rw (← same) bounds
    | inr same ↦ rw (← same) h
  ]

  set_limited-IsWeight :
      (arg old t : F)
      → set_limited float (of_int (pos 1)) arg old ≡ some t
      → IsWeight old
      → IsWeight t
  set_limited-IsWeight arg old t e h = elim (set_limited_cases (of_int (pos 1)) arg old t e) [
    | inl (same, (lo, hi)) ↦ rw (← same) (asym (of_int (pos 0)) arg lo, hi)
    | inr same ↦ rw (← same) h
  ]

  set_cpu_threshold-InRange :
      (args : ReschedulerArgs float) (c : ReschedulerConfig float)
      → InRange c
      → InRange (set_cpu_threshold float args c).0
  set_cpu_threshold-InRange args c (cpu, memory, cpu_weight, memory_weight) =
      elim (Option-cases
        (set_limited float (of_int (pos 100)) args.cpu_threshold c.cpu_threshold)) [
          | inl e ↦ rw (set_cpu_threshold, e) (cpu, memory, cpu_weight, memory_weight)
          | inr (t, e) ↦
              rw (set_cpu_threshold, e)
                (
                  set_limited-IsThreshold args.cpu_threshold c.cpu_threshold t e cpu,
                  memory,
                  cpu_weight,
                  memory_weight,
                )
        ]

  set_memory_threshold-InRange :
      (args : ReschedulerArgs float) (c : ReschedulerConfig float)
      → InRange c
      → InRange (set_memory_threshold float args c).0
  set_memory_threshold-InRange args c (cpu, memory, cpu_weight, memory_weight) =
      elim (Option-cases
        (set_limited float (of_int (pos 100)) args.memory_threshold c.memory_threshold)) [
          | inl e ↦ rw (set_memory_threshold, e) (cpu, memory, cpu_weight, memory_weight)
          | inr (t, e) ↦
              rw (set_memory_threshold, e)
                (
                  cpu,
                  set_limited-IsThreshold args.memory_threshold c.memory_threshold t e memory,
                  cpu_weight,
                  memory_weight,
                )
        ]

  set_cpu_score_weight-InRange :
      (args : ReschedulerArgs float) (c : ReschedulerConfig float)
      → InRange c
      → InRange (set_cpu_score_weight float args c).0
  set_cpu_score_weight-InRange args c (cpu, memory, cpu_weight, memory_weight) =
      elim (Option-cases
        (set_limited float (of_int (pos 1)) args.cpu_score_weight c.cpu_score_weight)) [
          | inl e ↦ rw (set_cpu_score_weight, e) (cpu, memory, cpu_weight, memory_weight)
          | inr (t, e) ↦
              rw (set_cpu_score_weight, e)
                (
                  cpu,
                  memory,
                  set_limited-IsWeight args.cpu_score_weight c.cpu_score_weight t e cpu_weight,
                  memory_weight,
                )
        ]

  set_memory_score_weight-InRange :
      (args : ReschedulerArgs float) (c : ReschedulerConfig float)
      → InRange c
      → InRange (set_memory_score_weight float args c).0
  set_memory_score_weight-InRange args c (cpu, memory, cpu_weight, memory_weight) =
      elim (Option-cases
        (set_limited float (of_int (pos 1)) args.memory_score_weight c.memory_score_weight)) [
          | inl e ↦ rw (set_memory_score_weight, e) (cpu, memory, cpu_weight, memory_weight)
          | inr (t, e) ↦
              rw (set_memory_score_weight, e)
                (
                  cpu,
                  memory,
                  cpu_weight,
                  set_limited-IsWeight args.memory_score_weight c.memory_score_weight t e
                      memory_weight,
                )
        ]

  set_thresholds-InRange :
      (args : ReschedulerArgs float) (c : ReschedulerConfig float)
      → InRange c
      → InRange (set_thresholds float args c).0
  set_thresholds-InRange args c h =
      and_then-InRange (set_cpu_threshold float args c) (set_memory_threshold float args)
        (set_cpu_threshold-InRange args c h) (set_memory_threshold-InRange args)

  set_weights-InRange :
      (args : ReschedulerArgs float) (c : ReschedulerConfig float)
      → InRange c
      → InRange (set_weights float args c).0
  set_weights-InRange args c h =
      and_then-InRange (set_cpu_score_weight float args c) (set_memory_score_weight float args)
        (set_cpu_score_weight-InRange args c h) (set_memory_score_weight-InRange args)

  set_all-InRange :
      (args : ReschedulerArgs float) (c : ReschedulerConfig float)
      → InRange c
      → InRange (set_all float args c).0
  set_all-InRange args c h =
      and_then-InRange (set_limits float args c) (set_rest float args)
        (and_then-InRange (and_then float (set_thresholds float args c) (set_switches float args))
          (set_weights float args)
          (and_then-InRange (set_thresholds float args c) (set_switches float args)
            (set_thresholds-InRange args c h) (λ d k. k))
          (set_weights-InRange args))
        (λ d k. k)

  apply_parsed-InRange :
      (decoders : Decoders float) (parsed : ReschedulerArgs float × Bool)
      (c : ReschedulerConfig float)
      → InRange c
      → InRange (apply_parsed float decoders parsed c).0
  unfolding apply_plugin_config
  apply_parsed-InRange decoders (args, true) c h =
      and_then-InRange (set_all float args c) (λ d. (d, validate_config float d))
        (set_all-InRange args c h) (λ d k. k)
  apply_parsed-InRange decoders (args, false) c h = h

  -- Whatever the object and the decoders, and whether the arguments are accepted or refused midway, the
  -- two thresholds that the plugin works with are above 0 and up to 100, and the two weights are from
  -- 0 to 1, where those of the defaults are. Of two numbers at most one is less than the other.
  pub configured-InRange :
      (decoders : Decoders float) (object : ConfigObject) (defaults : ReschedulerConfig float)
      → InRange defaults
      → InRange (configured float decoders object defaults)
  unfolding configured parse_plugin_config
  configured-InRange decoders nil defaults h = h
  configured-InRange decoders (unknown raw) defaults h = elim (Bool-cases (str_eq raw "")) [
    | inl e ↦ rw (configured, parse_plugin_config, e) h
    | inr e ↦
        rw (configured, parse_plugin_config, e)
          (apply_parsed-InRange decoders (parse_config_data float decoders raw (no_args float))
            defaults h)
  ]
  configured-InRange decoders (other none) defaults h = h
  configured-InRange decoders (other (some marshalled)) defaults h =
      apply_parsed-InRange decoders (decoders.json marshalled (no_args float)) defaults h
