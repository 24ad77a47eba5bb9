-- ===== src/Config/Load.antt =====
-- `Load` and `LoadEntitiesOnly` of config/config.go. `decode` stands for reading the file and for the
-- package yaml, whose errors the two functions pass on.
use imapsync.Base.{
  ℕ, Bool, ◌&&◌, Option, none, some, ◌++◌, ◌==◌, list_eq, nat_eq, length, if◌then◌else◌,
}
use imapsync.Base.Text.{Text, text}
use imapsync.Base.Result.{Error, Result, ok, err, errorf}
use imapsync.Config.{Config, source_yaml}
use imapsync.Config.Defaults.{apply_defaults}
use imapsync.Config.Validate.{ConfigError, validate_base, validate_entities}

-- Why a configuration is not used: an error, or what a check found.
pub data Refusal : Type 0 where
  unread : Error → Refusal
  invalid : ConfigError → Refusal

pub data Loaded : Type 0 where
  refused : Refusal → Loaded
  loaded : Config → Loaded

-- `if err != nil { return nil, … }; return &cfg, nil`
abbrev pub checked : Option ConfigError → Config → Loaded
checked none cfg = loaded cfg
checked (some why) cfg = refused (invalid why)

module _ (decode : Text → Result Config) where
  unfoldable pub load_entities_only : Text → Result Config
  load_entities_only path = elim (decode path) [
    | err why ↦ err why
    | ok cfg ↦
        if length cfg.folders == 0 && length cfg.users == 0
        then err (errorf (path ++ text " has neither folders nor users to import"))
        else ok cfg
  ]

  module _ (lower : ℕ → ℕ) (load_ca : Text → Bool) where
    -- The lists are checked here only if they come from the file.
    unfoldable pub load : Text → Loaded
    load path = elim (decode path) [
      | err why ↦ refused (unread why)
      | ok raw ↦
          let cfg = apply_defaults raw in
          elim (validate_base lower load_ca cfg) [
            | some why ↦ refused (invalid why)
            | none ↦
                if cfg.source == source_yaml
                then checked (validate_entities cfg) cfg
                else loaded cfg
          ]
    ]
