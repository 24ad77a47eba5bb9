-- ===== src/Cli/Daemon.antt =====
-- cmd/imapsync/run.go and daemon.go: the configuration that the daemon starts with, and whether it
-- opens the database.
use imapsync.Base.{
  ℕ, Bool, true, ◌&&◌, ◌||◌, not, Option, none, some, ◌==◌, list_eq, nat_eq, if◌then◌else◌,
}
use imapsync.Base.Int.{pos, int_ltb}
use imapsync.Base.Text.{Text, is_empty}
use imapsync.Base.Result.{Error, Result, ok, err}
use imapsync.Config.{Config, source_sqlite}
use imapsync.Config.Validate.{validate_entities}
use imapsync.Config.Load.{Loaded, refused, loaded, unread, checked, load}
use imapsync.Store.Tables.{Store}
use imapsync.Store.Users.{load_into}

-- `loadFromSQLite`: `opening` is what `store.Open` reports for the configuration's path.
unfoldable pub load_from_sqlite :
    (Text → Option Error) → Option Error → Option Error → Store → Config → Loaded
load_from_sqlite opening users_fault folders_fault s cfg = elim (opening cfg.sqlite_path) [
  | some why ↦ refused (unread why)
  | none ↦
      let (outcome, filled) = load_into users_fault folders_fault s cfg in
      elim outcome [
        | err why ↦ refused (unread why)
        | ok _ ↦ checked (validate_entities filled) filled
      ]
]

-- `needDB` of `runDaemon`
unfoldable pub need_db : Config → Bool
need_db cfg =
    cfg.state_cache
    || cfg.source == source_sqlite
    || int_ltb (pos 0) cfg.max_fail_streak && not (is_empty cfg.sqlite_path)

-- `store.OpenExclusive` is called only if the database is needed. `some` is the daemon's store.
unfoldable pub open_for : (Text → Result Store) → Config → Result (Option Store)
open_for open_exclusive cfg =
    if need_db cfg
    then elim (open_exclusive cfg.sqlite_path) [ err why ↦ err why | ok st ↦ ok (some st) ]
    else ok none

-- `if *debug { cfg.Debug = true }`
abbrev with_debug : Bool → Config → Config
with_debug debug cfg = if debug then record cfg { debug = true } else cfg

-- `cmdRun` up to the daemon's start, the flags `-config` and `-debug` being parsed.
unfoldable pub cmd_run :
    (Text → Result Config)
    → (ℕ → ℕ)
    → (Text → Bool)
    → (Text → Option Error)
    → Option Error
    → Option Error
    → Store
    → Text
    → Bool
    → Loaded
cmd_run decode lower load_ca opening users_fault folders_fault s path debug =
    elim (load decode lower load_ca path) [
      | refused why ↦ refused why
      | loaded read ↦
          let cfg = with_debug debug read in
          if cfg.source == source_sqlite
          then load_from_sqlite opening users_fault folders_fault s cfg
          else loaded cfg
    ]
