-- ===== src/Cli/Dispatch.antt =====
-- cmd/imapsync/main.go: which subcommand the arguments name, and the exit code.
use imapsync.Base.{
  ℕ, Bool, false, ◌||◌, Option, none, some, List, [], ◌∷◌, ◌==◌, list_eq, nat_eq, if◌then◌else◌,
}
use imapsync.Base.Text.{Text, text}
use imapsync.Base.Result.{Error, Result, ok, err}

pub data Command : Type 0 where
  run db_add_user db_add_folder db_import_yaml db_import_csv db_list : Command
  db_remove_user db_remove_folder db_forget_user db_resume_user db_history db_vacuum : Command

-- The cases of the switch.
unfoldable pub command_of : Text → Option Command
command_of cmd =
    if cmd == text "run"
    then some Command.run
    else if cmd == text "db-add-user"
    then some Command.db_add_user
    else if cmd == text "db-add-folder"
    then some Command.db_add_folder
    else if cmd == text "db-import-yaml"
    then some Command.db_import_yaml
    else if cmd == text "db-import-csv"
    then some Command.db_import_csv
    else if cmd == text "db-list"
    then some Command.db_list
    else if cmd == text "db-remove-user"
    then some Command.db_remove_user
    else if cmd == text "db-remove-folder"
    then some Command.db_remove_folder
    else if cmd == text "db-forget-user"
    then some Command.db_forget_user
    else if cmd == text "db-resume-user"
    then some Command.db_resume_user
    else if cmd == text "db-history"
    then some Command.db_history
    else if cmd == text "db-vacuum"
    then some Command.db_vacuum
    else none

unfoldable pub is_flag : Text → Bool
is_flag [] = false
is_flag (c ∷ s) = c == b'-'

unfoldable pub is_help_flag : Text → Bool
is_help_flag s = s == text "-h" || s == text "-help" || s == text "--help" || s == text "help"

-- What `main` does with the arguments after the program's name.
pub data Action : Type 0 where
  show_usage : Action
  unknown : Text → Action
  perform : Command → List Text → Action

-- A subcommand by its name.
abbrev named : Text → List Text → Action
named cmd args = elim (command_of cmd) [ none ↦ unknown cmd | some c ↦ perform c args ]

-- Without a subcommand, `run` is meant, and a flag stays among its arguments.
unfoldable pub action_of : List Text → Action
action_of [] = perform Command.run []
action_of (a ∷ args) =
    if is_help_flag a
    then show_usage
    else if is_flag a
    then perform Command.run (a ∷ args)
    else named a args

-- The exit code, `is_help` being `errors.Is(err, flag.ErrHelp)`.
unfoldable pub exit_code : (Error → Bool) → Result (Unit {0}) → ℕ
exit_code is_help (ok _) = 0
exit_code is_help (err why) = if is_help why then 0 else 1

-- `main`, where `perform_command` is the subcommand's function.
unfoldable pub main : (Error → Bool) → (Command → List Text → Result (Unit {0})) → List Text → ℕ
unfolding action_of exit_code
main is_help perform_command args = elim (action_of args) [
  | show_usage ↦ 0
  | unknown cmd ↦ 2
  | perform c rest ↦ exit_code is_help (perform_command c rest)
]
