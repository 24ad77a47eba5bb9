-- ===== src/Cli.antt =====
-- cmd/imapsync: the subcommands on the database, reading the configuration, and the start of the
-- daemon. What `flag` makes of the arguments is an argument of each subcommand, and so is what the
-- database reports for each of its statements.
pub mod Csv
pub mod Commands
pub mod Listing
pub mod Dispatch
pub mod Daemon
pub mod Removal
pub mod Steps
pub mod Loading
use imapsync.Base.{List, [], ◌∷◌, ◌++◌, Option, none, some, if◌then◌else◌}
use imapsync.Base.Text.{Text, text, trim_space, is_empty}
use imapsync.Base.Result.{Error, Result, ok, err, errorf}
use imapsync.Store.Tables.{Store}

-- What a subcommand returns, what it prints, and the tables that it leaves.
pub record Outcome : Type 0 where
  pub result : Result (Unit {0})
  pub printed : Text
  pub store : Store

abbrev pub failed : Error → Store → Outcome
failed why s = record { result = err why; printed = []; store = s }

-- A subcommand of one operation: its message is printed if it succeeds.
unfoldable pub reporting : Text → Result (Unit {0}) × Store → Outcome
reporting message (ok _, s) = record { result = ok tt; printed = message; store = s }
reporting message (err why, s) = failed why s

-- `withStore`: `parsed` is the path of the database and the subcommand's own flags, `opening` what
-- `store.Open` reports.
unfoldable pub with_store {ℓ} :
    {F : Type ℓ}
    → Result (Text × F)
    → (Text → Option Error)
    → (F → Store → Outcome)
    → Store
    → Outcome
with_store (err why) opening run s = failed why s
with_store (ok (path, flags)) opening run s =
    if is_empty path
    then failed (errorf (text "-db is not set")) s
    else elim (opening path) [ some why ↦ failed why s | none ↦ run flags s ]

-- The texts in a row.
abbrev pub concat : List Text → Text
concat [] = []
concat (t ∷ ts) = t ++ concat ts

abbrev pub newline : Text
newline = 10 ∷ []
