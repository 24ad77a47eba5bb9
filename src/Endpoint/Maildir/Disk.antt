-- ===== src/Endpoint/Maildir/Disk.antt =====
-- The functions of `os` and `path/filepath` that the Maildir endpoint calls, on a disk of
-- directories and files under their paths.
use imapsync.Base.{
  Bool, true, false, ◌&&◌, ◌||◌, not, Option, none, some, List, [], ◌∷◌, ◌++◌, ◌==◌, list_eq,
  nat_eq, if◌then◌else◌, contains, length,
}
use imapsync.Base.Text.{Text, text, drop, has_prefix, filter_map, is_empty}
use imapsync.Base.Sort.{sort, text_leb}
use imapsync.Base.Dict
use imapsync.Base.Dict.{Dict}
use imapsync.Base.Time.{Time}
use imapsync.Base.Result.{Error, Result, ok, err, errorf}

pub record File : Type 0 where
  pub content : Text
  pub modified : Time

-- The calls that may fail.
pub data Call : Type 0 where
  making listing stating reading creating writing closing renaming : Call

-- `broken` is the error that a call on a path reports, if the system refuses it.
pub record Disk : Type 0 where
  pub dirs : List Text
  pub files : Dict Text File
  pub broken : Call → Text → Option Error

-- `filepath.Join` of a directory and a name: the name "." is the directory itself.
unfoldable pub join : Text → Text → Text
join dir name = if name == text "." then dir else dir ++ (b'/' ∷ name)

-- `os.Stat` finds a directory.
abbrev pub is_dir : Text → Disk → Bool
is_dir path d = contains d.dirs path

-- A call that the system does not refuse.
abbrev pub guarded {ℓ} : {A : Type ℓ} → Call → Text → Disk → Result A → Result A
guarded call path d result = elim (d.broken call path) [ none ↦ result | some why ↦ err why ]

-- A path and the directories that it stands in, from the root on.
unfoldable pub path_and_parents : Text → Text → List Text
path_and_parents seen [] = seen ∷ []
path_and_parents seen (c ∷ s) =
    let rest = path_and_parents (seen ++ (c ∷ [])) s in
    if c == b'/' && not (is_empty seen) then seen ∷ rest else rest

-- Each directory is made unless it is there; the first failure ends the loop.
unfoldable pub mkdir_each : List Text → Disk → Result (Unit {0}) × Disk
mkdir_each [] d = (ok tt, d)
mkdir_each (path ∷ paths) d =
    let there = mkdir_each paths d in
    let made = mkdir_each paths (record d { dirs = d.dirs ++ (path ∷ []) }) in
    if is_dir path d
    then there
    else if Dict.member path d.files
    then (err (errorf (text "mkdir " ++ (path ++ text ": not a directory"))), d)
    else elim (d.broken making path) [ some why ↦ (err why, d) | none ↦ made ]

-- `os.MkdirAll`
unfoldable pub mkdir_all : Text → Disk → Result (Unit {0}) × Disk
unfolding path_and_parents mkdir_each
mkdir_all path d = mkdir_each (path_and_parents [] path) d

-- An entry of a directory.
pub record DirEntry : Type 0 where
  pub name : Text
  pub is_directory : Bool

-- The name of a path inside a directory, if it stands directly there.
unfoldable pub child_name : Text → Text → Option Text
child_name dir path =
    let name = drop (length dir) path in
    if not (has_prefix path dir) then none else elim name [
      | [] ↦ none
      | c ∷ base ↦
          if c == b'/' && not (contains base b'/') && not (is_empty base) then some base else none
    ]

unfoldable pub entries : Text → Disk → List DirEntry
entries dir d =
    filter_map
      (λ path. elim (child_name dir path) [
        | none ↦ none
        | some name ↦ some (record { name = name; is_directory = true })
      ])
      d.dirs
    ++ filter_map
        (λ path. elim (child_name dir path) [
          | none ↦ none
          | some name ↦ some (record { name = name; is_directory = false })
        ])
        (Dict.keys d.files)

-- `os.ReadDir`: the entries in the order of their names.
unfoldable pub read_dir : Text → Disk → Result (List DirEntry)
unfolding entries child_name
read_dir dir d = guarded listing dir d (
    if contains d.dirs dir
    then ok (sort (λ x y. text_leb x.name y.name) (entries dir d))
    else err (errorf (text "no such directory")))

-- `os.Stat` and `os.ReadFile` of a file.
unfoldable pub stat_file : Text → Disk → Result File
stat_file path d =
    guarded stating path d (elim (Dict.lookup path d.files) [
      | none ↦ err (errorf (text "no such file"))
      | some f ↦ ok f
    ])

unfoldable pub read_file : Text → Disk → Result Text
read_file path d = guarded reading path d (elim (Dict.lookup path d.files) [
  | none ↦ err (errorf (text "no such file"))
  | some f ↦ ok f.content
])

-- `os.OpenFile` with O_CREATE and O_EXCL: an empty file that was not there.
unfoldable pub create_file : Time → Text → Disk → Result (Unit {0}) × Disk
create_file now path d = elim (d.broken creating path) [
  | some why ↦ (err why, d)
  | none ↦
      if Dict.member path d.files || contains d.dirs path
      then (err (errorf (text "file exists")), d)
      else (
        ok tt,
        record d { files = Dict.insert path (record { content = []; modified = now }) d.files },
      )
]

-- What is written to a file, and its time set by `os.Chtimes`.
unfoldable pub put_file : Text → File → Disk → Disk
put_file path f d = record d { files = Dict.insert path f d.files }

-- `os.Remove`
unfoldable pub remove : Text → Disk → Disk
remove path d = record d { files = Dict.erase path d.files }

-- `os.Rename` of a file
unfoldable pub rename : Text → Text → Disk → Result (Unit {0}) × Disk
rename from to d = elim (d.broken renaming to) [
  | some why ↦ (err why, d)
  | none ↦ elim (Dict.lookup from d.files) [
    | none ↦ (err (errorf (text "no such file")), d)
    | some f ↦ (ok tt, record d { files = Dict.insert to f (Dict.erase from d.files) })
  ]
]
