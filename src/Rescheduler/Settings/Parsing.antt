-- ===== src/Rescheduler/Settings/Parsing.antt =====
-- The parsing of the arguments of pkg/rescheduler/rescheduler.go. The decoders of JSON and YAML are
-- parameters: each writes into the arguments, also where it fails.
use plugins_improve.Prelude.{
  pos, Bool, true, false, Option, none, some, [], String, str_eq, if◌then◌else◌,
}
use plugins_improve.Floats.{Float64}
use plugins_improve.Rescheduler.Settings.{ReschedulerConfig, ReschedulerArgs, apply_plugin_config}

module _ (float : Float64) where
  pub record Decoders : Type 0 where
    pub json : String → ReschedulerArgs float → ReschedulerArgs float × Bool
    pub yaml : String → ReschedulerArgs float → ReschedulerArgs float × Bool
    pub yaml_to_json : String → Option String

  abbrev pub no_args : ReschedulerArgs float
  no_args = record {
    cpu_threshold = float.of_int (pos 0);
    memory_threshold = float.of_int (pos 0);
    excluded_namespaces = [];
    enable_scheduling_optimization = none;
    enable_preventive_rescheduling = none;
    cpu_score_weight = float.of_int (pos 0);
    memory_score_weight = float.of_int (pos 0);
    load_balance_bonus = float.of_int (pos 0);
    enable_rescheduling_controller = none;
    rescheduling_interval = "";
  }

-- What the plugin is configured by: the raw bytes of a `runtime.Unknown`, empty where it is nil, or
-- another object with what `json.Marshal` makes of it.
pub data ConfigObject : Type 0 where
  nil : ConfigObject
  unknown : (raw : String) → ConfigObject
  other : (marshalled : Option String) → ConfigObject

module _ (float : Float64) (decoders : Decoders float) where
  open decoders use {json, yaml, yaml_to_json}

  -- The next attempt writes into the arguments that the failed one left.
  abbrev pub or_else :
      ReschedulerArgs float × Bool
      → (ReschedulerArgs float → ReschedulerArgs float × Bool)
      → ReschedulerArgs float × Bool
  or_else (args, true) next = (args, true)
  or_else (args, false) next = next args

  abbrev pub converted : Option String → ReschedulerArgs float → ReschedulerArgs float × Bool
  converted none args = (args, false)
  converted (some text) args = json text args

  unfoldable pub parse_config_data : String → ReschedulerArgs float → ReschedulerArgs float × Bool
  parse_config_data raw args =
      or_else (or_else (json raw args) (yaml raw)) (converted (yaml_to_json raw))

  abbrev pub apply_parsed :
      ReschedulerArgs float × Bool → ReschedulerConfig float → ReschedulerConfig float × Bool
  apply_parsed (args, true) config = apply_plugin_config float args config
  apply_parsed (args, false) config = (config, false)

  -- The configuration afterwards, and whether there was no error.
  unfoldable pub parse_plugin_config :
      ConfigObject → ReschedulerConfig float → ReschedulerConfig float × Bool
  unfolding parse_config_data apply_plugin_config
  parse_plugin_config nil config = (config, true)
  parse_plugin_config (unknown raw) config =
      if str_eq raw ""
      then (config, true)
      else apply_parsed (parse_config_data raw (no_args float)) config
  parse_plugin_config (other none) config = (config, false)
  parse_plugin_config (other (some marshalled)) config =
      apply_parsed (json marshalled (no_args float)) config

  -- What the plugin works with: an error is only logged.
  unfoldable pub configured : ConfigObject → ReschedulerConfig float → ReschedulerConfig float
  unfolding parse_plugin_config
  configured object defaults = (parse_plugin_config object defaults).0
