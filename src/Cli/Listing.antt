-- ===== src/Cli/Listing.antt =====
-- `cmdDBListRun`, `cmdDBHistory` and `fmtTime` of cmd/imapsync/db.go: the subcommands that only read.
-- `format` is `t.Format`, `quote` is `%q`.
use imapsync.Base.{
  ℕ, ◌-◌, zero, suc, ◌||◌, not, Option, none, some, List, [], ◌∷◌, ◌++◌, map, length, ltb, list_eq,
  nat_eq, if◌then◌else◌,
}
use imapsync.Base.Int.{ℤ, pos}
use imapsync.Base.Text.{Text, text, is_empty}
use imapsync.Base.Time.{Time, is_zero, decimal}
use imapsync.Base.Dict
use imapsync.Base.Dict.{Dict}
use imapsync.Base.Result.{Error, ok, err, errorf}
use imapsync.Config.{User, FolderPair}
use imapsync.Store.Tables.{Store}
use imapsync.Store.Users.{all_users, list_folder_pairs}
use imapsync.Store.Runs.{RunResult, UserStatus, user_statuses, user_runs}
use imapsync.Cli.{Outcome, failed, concat, newline}

-- The output of a subcommand that leaves the tables as they are.
abbrev shown : Text → Store → Outcome
shown out s = record { result = ok tt; printed = out; store = s }

-- `-user` and `-limit`
pub record HistoryFlags : Type 0 where
  pub user : Text
  pub limit : ℤ

spaces : ℕ → Text
spaces zero = []
spaces (suc n) = b' ' ∷ spaces n

-- `%-5s`
unfoldable pub pad_right : ℕ → Text → Text
unfolding spaces
pad_right n s = s ++ spaces (n - length s)

module _ (format : Time → Text) where
  unfoldable pub fmt_time : Time → Text
  fmt_time t = if is_zero t then text "-" else format t

  abbrev counters : ℕ → ℕ → ℕ → ℕ → Text
  counters copied_ab copied_ba dups errors = concat (
      text "A->B="
      ∷ decimal (pos copied_ab)
      ∷ text " B->A="
      ∷ decimal (pos copied_ba)
      ∷ text " dups="
      ∷ decimal (pos dups)
      ∷ text " errors="
      ∷ decimal (pos errors)
      ∷ [])

  -- `if text != "" { … }`
  abbrev unless_empty : Text → Text → Text
  unless_empty before t = if is_empty t then [] else before ++ t

  unfoldable pub run_line : RunResult → Text
  unfolding fmt_time pad_right
  run_line r = concat (
      text "  "
      ∷ fmt_time r.at
      ∷ text "  "
      ∷ pad_right 5 r.status
      ∷ text "  "
      ∷ counters r.copied_a_to_b r.copied_b_to_a r.skipped_dup r.errors
      ∷ unless_empty (text "  ") r.last_error
      ∷ newline
      ∷ [])

  unfoldable pub status_lines : UserStatus → Text
  unfolding fmt_time
  status_lines st = concat (
      text "      status: "
      ∷ st.status
      ∷ text ", run: "
      ∷ fmt_time st.last_run
      ∷ (if is_zero st.last_ok then [] else text ", ok: " ++ fmt_time st.last_ok)
      ∷ newline
      ∷ text "      "
      ∷ counters st.copied_a_to_b st.copied_b_to_a st.skipped_dup st.errors
      ∷ (if ltb 0 st.fail_streak
          then concat (
              newline
              ∷ text "      consecutive errors: "
              ∷ decimal (pos st.fail_streak)
              ∷ text ", streak since "
              ∷ fmt_time st.fail_since
              ∷ [])
          else [])
      ∷ unless_empty (newline ++ text "      last error: ") st.last_error
      ∷ newline
      ∷ [])

  unfoldable pub user_lines : Dict Text UserStatus → User → Text
  unfolding status_lines
  user_lines statuses u = concat (
      text "  "
      ∷ u.name
      ∷ text ": "
      ∷ u.user_a
      ∷ text " | "
      ∷ u.user_b
      ∷ newline
      ∷ (if not (is_empty u.path_a) || not (is_empty u.path_b)
          then concat
              (text "      path_a: " ∷ u.path_a ∷ text ", path_b: " ∷ u.path_b ∷ newline ∷ [])
          else [])
      ∷ (elim (Dict.lookup u.name statuses) [ none ↦ [] | some st ↦ status_lines st ])
      ∷ [])

  module _ (quote : Text → Text) where
    abbrev pair_text : FolderPair → Text
    pair_text fp = concat (text "  " ∷ quote fp.a ∷ text " -> " ∷ quote fp.b ∷ newline ∷ [])

    unfoldable pub listing : List FolderPair → List User → Dict Text UserStatus → Text
    unfolding user_lines
    listing folders users statuses = concat (
        text "folder pairs ("
        ∷ decimal (pos (length folders))
        ∷ text "):"
        ∷ newline
        ∷ concat (map pair_text folders)
        ∷ text "users ("
        ∷ decimal (pos (length users))
        ∷ text ", including disabled):"
        ∷ newline
        ∷ concat (map (user_lines statuses) users)
        ∷ [])

    -- The three reads, in their order.
    unfoldable pub db_list : Option Error → Option Error → Option Error → Store → Outcome
    unfolding listing
    db_list folders_fault users_fault statuses_fault s = elim (list_folder_pairs folders_fault s) [
      | err why ↦ failed why s
      | ok folders ↦ elim (all_users users_fault s) [
        | err why ↦ failed why s
        | ok users ↦ elim (user_statuses statuses_fault s) [
          | err why ↦ failed why s
          | ok statuses ↦ shown (listing folders users statuses) s
        ]
      ]
    ]

    history_text : Text → List RunResult → Text
    unfolding run_line
    history_text name [] = concat (text "no runs recorded for user " ∷ quote name ∷ newline ∷ [])
    history_text name (r ∷ runs) = concat (
        text "recent runs for user "
        ∷ quote name
        ∷ text " ("
        ∷ decimal (pos (length (r ∷ runs)))
        ∷ text "):"
        ∷ newline
        ∷ concat (map run_line (r ∷ runs))
        ∷ [])

    unfoldable pub db_history : Option Error → HistoryFlags → Store → Outcome
    unfolding history_text
    db_history fault f s =
        if is_empty f.user
        then failed (errorf (text "-user is not set")) s
        else elim (user_runs fault f.user f.limit s) [
          | err why ↦ failed why s
          | ok runs ↦ shown (history_text f.user runs) s
        ]
