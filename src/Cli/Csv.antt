-- ===== src/Cli/Csv.antt =====
-- `readCSV`, `importFoldersCSV`, `importUsersCSV` and `parseBool` of cmd/imapsync/db.go. The package
-- encoding/csv is an argument: the records of a file up to the first one that cannot be read.
pub mod Valid
use imapsync.Base.{
  ℕ, zero, suc, ◌+◌, Bool, true, false, ◌&&◌, ◌||◌, not, Option, none, some, List, [], ◌∷◌, ◌++◌,
  map, ◌==◌, list_eq, nat_eq, if◌then◌else◌, filter, contains,
}
use imapsync.Base.Int.{pos}
use imapsync.Base.Text.{Text, text, trim_space, has_prefix, equal_fold}
use imapsync.Base.Time.{decimal}
use imapsync.Base.Result.{Error, Result, ok, err, errorf, wrap}
use imapsync.Config.{User, FolderPair}
use imapsync.Store.Tables.{Store}
use imapsync.Store.Users.{upsert_user, upsert_folder_pair}
use imapsync.Cli.{concat}

-- `os.Open`, and then the records before the end of the file or the first error.
abbrev pub Reader : Type 0
Reader = Text → Result (List (List Text) × Option Error)

-- `len(rec) == 0 || strings.HasPrefix(strings.TrimSpace(rec[0]), "#")`
unfoldable pub is_comment : List Text → Bool
is_comment [] = true
is_comment (field ∷ rest) = has_prefix (trim_space field) (text "#")

unfoldable pub read_csv : Reader → Text → Result (List (List Text))
unfolding is_comment
read_csv read path = elim (read path) [
  | err why ↦ err (wrap (text "opening " ++ (path ++ text ": ")) why)
  | ok (records, some why) ↦ err (wrap (text "parsing " ++ (path ++ text ": ")) why)
  | ok (records, none) ↦ ok (filter (λ rec. not (is_comment rec)) records)
]

-- `%s line %d: `
unfoldable pub at_line : Text → ℕ → Text
at_line path i = concat (path ∷ text " line " ∷ decimal (pos (i + 1)) ∷ text ": " ∷ [])

-- The first two fields, trimmed.
unfoldable pub row_pair : List Text → Option FolderPair
row_pair (a ∷ b ∷ rest) = some (record { a = trim_space a; b = trim_space b })
row_pair _ = none

unfoldable pub parse_bool : (ℕ → ℕ) → Text → Bool
parse_bool lower s = not (
    contains (text "0" ∷ text "false" ∷ text "no" ∷ text "n" ∷ text "off" ∷ [] ∷ [])
      (map lower (trim_space s)))

-- The fields from the fourth on: whether the user is enabled, and the two paths.
unfoldable pub extra_fields : (ℕ → ℕ) → List Text → Bool × (Text × Text)
unfolding parse_bool
extra_fields lower [] = (true, ([], []))
extra_fields lower (e ∷ []) = (parse_bool lower e, ([], []))
extra_fields lower (e ∷ a ∷ []) = (parse_bool lower e, (trim_space a, []))
extra_fields lower (e ∷ a ∷ b ∷ rest) = (parse_bool lower e, (trim_space a, trim_space b))

unfoldable pub row_user : (ℕ → ℕ) → List Text → Option (User × Bool)
unfolding extra_fields
row_user lower (name ∷ a ∷ b ∷ rest) =
    let (enabled, (path_a, path_b)) = extra_fields lower rest in
    some (
      record {
        name = trim_space name;
        user_a = trim_space a;
        user_b = trim_space b;
        path_a = path_a;
        path_b = path_b;
      },
      enabled,
    )
row_user _ _ = none

-- `i == 0` and the first field is the header's name.
unfoldable pub is_header : (ℕ → ℕ) → Text → ℕ → Text → Bool
is_header fold title i field = i == 0 && equal_fold fold field title

-- What one row does: the loop stops with the error, or goes on, `true` if something was saved.
abbrev pub Row : Type 0
Row = ℕ → ℕ → List Text → Store → Result Bool × Store

-- `if err != nil { return n, fmt.Errorf(…) }; n++`
unfoldable pub saved : Text → ℕ → Result (Unit {0}) × Store → Result Bool × Store
unfolding at_line
saved path i (err why, s) = (err (wrap (at_line path i) why), s)
saved path i (ok _, s) = (ok true, s)

abbrev pub advance : Result Bool → ℕ → ℕ
advance (ok true) n = n + 1
advance _ n = n

-- The loop over the rows: `i` is the row, `n` the number of rows that were saved, which is also the
-- number of the next statement.
unfoldable pub import_rows :
    Row → ℕ → ℕ → List (List Text) → Store → (Result (Unit {0}) × ℕ) × Store
import_rows row i n [] s = ((ok tt, n), s)
import_rows row i n (rec ∷ rows) s =
    let (outcome, s') = row i n rec s in
    let more = import_rows row (i + 1) (advance outcome n) rows s' in
    elim outcome [ err why ↦ ((err why, n), s') | ok _ ↦ more ]

module _ (fold : ℕ → ℕ) where
  unfoldable pub folder_row : (ℕ → Option Error) → Text → Row
  unfolding row_pair is_header at_line saved
  folder_row faults path i n rec s = elim (row_pair rec) [
    | none ↦ (err (errorf (at_line path i ++ text "2 fields required (folder_a,folder_b)")), s)
    | some fp ↦
        if is_header fold (text "folder_a") i fp.a
        then (ok false, s)
        else saved path i (upsert_folder_pair (faults n) fp s)
  ]

  unfoldable pub user_row : (ℕ → ℕ) → (ℕ → Option Error) → Text → Row
  unfolding row_user is_header at_line saved
  user_row lower faults path i n rec s = elim (row_user lower rec) [
    | none ↦
        (err (errorf (at_line path i ++ text "at least 3 fields required (name,user_a,user_b)")), s)
    | some (u, enabled) ↦
        if is_header fold (text "name") i u.name
        then (ok false, s)
        else saved path i (upsert_user (faults n) u enabled s)
  ]

  unfoldable pub import_folders_csv :
      Reader → (ℕ → Option Error) → Text → Store → (Result (Unit {0}) × ℕ) × Store
  unfolding read_csv import_rows folder_row
  import_folders_csv read faults path s = elim (read_csv read path) [
    | err why ↦ ((err why, 0), s)
    | ok rows ↦ import_rows (folder_row faults path) 0 0 rows s
  ]

  unfoldable pub import_users_csv :
      (ℕ → ℕ) → Reader → (ℕ → Option Error) → Text → Store → (Result (Unit {0}) × ℕ) × Store
  unfolding read_csv import_rows user_row
  import_users_csv lower read faults path s = elim (read_csv read path) [
    | err why ↦ ((err why, 0), s)
    | ok rows ↦ import_rows (user_row lower faults path) 0 0 rows s
  ]
