-- ===== src/Endpoint/Maildir/Session.antt =====
-- A session on one Maildir: `Select`, `ListIDs`, `FetchMeta`, `Open` and `Append` of
-- internal/endpoint/maildir.go.
use imapsync.Base.{
  ℕ, ◌+◌, false, ◌&&◌, ◌||◌, Option, none, some, List, [], ◌∷◌, ◌++◌, ◌==◌, list_eq, nat_eq,
  if◌then◌else◌, length, map, ◌%◌, ◌^◌,
}
use imapsync.Base.Int.{pos}
use imapsync.Base.Text.{
  Text, text, drop, has_prefix, trim_prefix, trim_space, equal_fold, is_empty, cut_last,
}
use imapsync.Base.Dict
use imapsync.Base.Dict.{Dict}
use imapsync.Base.Sort.{sort, text_leb}
use imapsync.Base.Time.{Time, is_zero, unix, decimal}
use imapsync.Base.Result.{Result, ok, err, errorf, wrap}
use imapsync.Endpoint.{Message, Literal, buffered, bytes, Endpoint}
use imapsync.Endpoint.Maildir.{
  maildir_special, unique_id, flags_from_name, flag_suffix, dotted, slashed, header_block,
}
use imapsync.Endpoint.Maildir.Disk.{
  Disk, File, DirEntry, join, is_dir, mkdir_all, read_dir, stat_file, read_file, create_file,
  put_file, remove, rename, writing, closing,
}

-- `maildirEndpoint`, the disk, and the counter that the process has for unique names.
pub record State : Type 0 where
  pub root : Text
  pub folder : Text
  pub files : Dict Text Text
  pub disk : Disk
  pub counter : ℕ

-- The machine: its name, the process, and the clock.
pub record Host : Type 0 where
  pub name : Text
  pub pid : ℕ
  pub now : Time

-- The first entry of the root that is a folder of this name, whatever its case.
unfoldable pub find_folder : (ℕ → ℕ) → Text → List DirEntry → Option Text
find_folder fold n [] = none
find_folder fold n (ent ∷ ents) =
    let later = find_folder fold n ents in
    if ent.is_directory && has_prefix ent.name (text ".") && equal_fold fold (drop 1 ent.name) n
    then some ent.name
    else later

-- The path of a subfolder, and where no directory has its exact name, of one that differs in case.
unfoldable pub subfolder_path : (ℕ → ℕ) → Text → State → Text
unfolding find_folder
subfolder_path fold n s =
    let exact = join s.root (b'.' ∷ n) in
    if is_dir exact s.disk then exact else elim (read_dir s.root s.disk) [
      | err why ↦ exact
      | ok ents ↦ elim (find_folder fold n ents) [ none ↦ exact | some found ↦ join s.root found ]
    ]

unfoldable pub special_name : Text → Text
special_name n = elim (Dict.lookup n maildir_special) [ none ↦ n | some sub ↦ sub ]

-- `folderPath`
unfoldable pub folder_path : (ℕ → ℕ) → Text → State → Text
unfolding subfolder_path special_name
folder_path fold name s =
    let n = trim_space name in
    if is_empty n || equal_fold fold n (text "INBOX")
    then s.root
    else subfolder_path fold (dotted (special_name n)) s

abbrev pub subs : List Text
subs = text "tmp" ∷ text "new" ∷ text "cur" ∷ []

-- The loop that makes the three directories; the first failure ends it.
unfoldable pub make_subs : (Text → Text) → Text → List Text → Disk → Result (Unit {0}) × Disk
make_subs context path [] d = (ok tt, d)
make_subs context path (sub ∷ rest) d =
    let (made, d') = mkdir_all (join path sub) d in
    let more = make_subs context path rest d' in
    elim made [ err why ↦ (err (wrap (context sub) why), d') | ok _ ↦ more ]

-- The files of one directory go into the index; hidden ones and directories do not.
unfoldable pub scan_entries : Text → List DirEntry → Dict Text Text → Dict Text Text
scan_entries dir [] files = files
scan_entries dir (ent ∷ ents) files = scan_entries dir ents (
    if ent.is_directory || has_prefix ent.name (text ".")
    then files
    else Dict.insert (unique_id ent.name) (join dir ent.name) files)

unfoldable pub scan_dirs : Text → List Text → Disk → Dict Text Text → Result (Dict Text Text)
unfolding scan_entries
scan_dirs folder [] d files = ok files
scan_dirs folder (sub ∷ rest) d files =
    let dir = join folder sub in
    elim (read_dir dir d) [
      | err why ↦
          err (wrap (text "maildir " ++ (folder ++ (text ": reading " ++ (sub ++ text ": ")))) why)
      | ok ents ↦ scan_dirs folder rest d (scan_entries dir ents files)
    ]

-- `scan`; after an error the index is not used.
unfoldable pub scan : Text → Disk → Result (Dict Text Text)
unfolding scan_dirs
scan folder d = scan_dirs folder (text "new" ∷ text "cur" ∷ []) d []

-- `filepath.Base`
unfoldable pub base_name : Text → Text
base_name path = elim (cut_last b'/' path) [ none ↦ path | some (dir, name) ↦ name ]

unfoldable pub folder_name : State → Text → Text
unfolding base_name
folder_name s path =
    if path == s.root then text "INBOX" else slashed (trim_prefix (base_name path) (text "."))

unfoldable pub select : (ℕ → ℕ) → Text → State → Result (Text × Text) × State
unfolding folder_path make_subs scan folder_name
select fold name s =
    let path = folder_path fold name s in
    let (made, d) =
      make_subs (λ sub. text "maildir " ++ (path ++ (text ": creating " ++ (sub ++ text ": "))))
        path subs s.disk in
    elim made [
      | err why ↦ (err why, record s { disk = d })
      | ok _ ↦ elim (scan path d) [
        | err why ↦ (err why, record s { disk = d; folder = path; files = [] })
        | ok files ↦ (
          ok (folder_name s path, text "maildir"),
          record s { disk = d; folder = path; files = files },
        )
      ]
    ]

unfoldable pub list_ids : State → Result (List Text) × State
list_ids s = (ok (sort text_leb (Dict.keys s.files)), s)

-- `uint32(fi.Size())`
abbrev pub size_of : File → ℕ
size_of f = length f.content % 2 ^ 32

-- One message of `FetchMeta`: the file is looked at, then read.
unfoldable pub meta : Text → Text → Disk → Result Message
unfolding base_name
meta id path d = elim (stat_file path d) [
  | err why ↦ err (wrap (text "maildir stat " ++ (path ++ text ": ")) why)
  | ok f ↦ elim (read_file path d) [
    | err why ↦ err (wrap (text "maildir reading " ++ (path ++ text ": ")) why)
    | ok content ↦ ok (record {
      id = id;
      flags = flags_from_name (base_name path);
      internal_date = f.modified;
      size = size_of f;
      header = header_block content;
    })
  ]
]

-- An id without a file is left out; the first failure ends the loop.
unfoldable pub fetch_each : List Text → State → Result (List Message)
unfolding meta
fetch_each [] s = ok []
fetch_each (id ∷ ids) s =
    let rest = fetch_each ids s in
    elim (Dict.lookup id s.files) [
      | none ↦ rest
      | some path ↦ elim (meta id path s.disk) [
        | err why ↦ err why
        | ok m ↦ elim rest [ err why ↦ err why | ok ms ↦ ok (m ∷ ms) ]
      ]
    ]

-- A nil list asks for every file, in the order of the index.
unfoldable pub fetch_meta : Option (List Text) → State → Result (List Message) × State
unfolding fetch_each
fetch_meta none s = (fetch_each (Dict.keys s.files) s, s)
fetch_meta (some ids) s = (fetch_each ids s, s)

-- `quote` is `%q`.
unfoldable pub open_message : (Text → Text) → Text → State → Result Literal × State
open_message quote id s = elim (Dict.lookup id s.files) [
  | none ↦ (
    err (errorf (text "maildir: message " ++ (quote id ++ (text " not found in " ++ s.folder)))),
    s,
  )
  | some path ↦ elim (read_file path s.disk) [
    | err why ↦ (err (wrap (text "maildir reading " ++ (path ++ text ": ")) why), s)
    | ok content ↦ (ok (buffered content), s)
  ]
]

-- The replacer on the host's name
abbrev pub safe_host : Text → Text
safe_host = map (λ c. if c == b'/' then b'_' else if c == b':' then b'_' else c)

-- `%d.%d_%d.%s`
unfoldable pub unique_name : Host → ℕ → Text
unique_name host counter =
    decimal (unix host.now)
    ++ (b'.'
        ∷ (decimal (pos host.pid)
            ++ (b'_' ∷ (decimal (pos counter) ++ (b'.' ∷ safe_host host.name)))))

-- The subfolder for a message with this suffix, and the file's path.
abbrev pub sub_of : Text → Text
sub_of suffix = if is_empty suffix then text "new" else text "cur"

unfoldable pub delivered_to : Text → Text → Text → Text
delivered_to folder unique suffix =
    join (join folder (sub_of suffix)) (if is_empty suffix then unique else unique ++ suffix)

-- The steps of `Append` once the temporary file is there: write, close, set the time, rename. A
-- failure removes the temporary file.
unfoldable pub finish : Time → Text → Text → Text → Time → Text → Disk → Result (Unit {0}) × Disk
finish now tmp sub dst date content d = elim (d.broken writing tmp) [
  | some why ↦ (err (wrap (text "maildir writing " ++ (tmp ++ text ": ")) why), remove tmp d)
  | none ↦ elim (d.broken closing tmp) [
    | some why ↦ (err (wrap (text "maildir closing " ++ (tmp ++ text ": ")) why), remove tmp d)
    | none ↦
        let written =
          put_file tmp (record { content = content; modified = if is_zero date then now else date })
            d in
        let (moved, d') = rename tmp dst written in
        elim moved [
          | err why ↦
              (err (wrap (text "maildir moving to " ++ (sub ++ text ": ")) why), remove tmp d')
          | ok _ ↦ (ok tt, d')
        ]
  ]
]

unfoldable pub append : Host → List Text → Time → Literal → State → Result Text × State
unfolding finish delivered_to unique_name
append host flags date body s =
    let unique = unique_name host (s.counter + 1) in
    let tmp = join (join s.folder (text "tmp")) unique in
    let suffix = flag_suffix flags in
    let dst = delivered_to s.folder unique suffix in
    let (created, d) = create_file host.now tmp s.disk in
    let (finished, d') = finish host.now tmp (sub_of suffix) dst date (bytes body) d in
    let counted = record s { counter = s.counter + 1 } in
    elim created [
      | err why ↦ (
        err (wrap (text "maildir creating tmp " ++ (tmp ++ text ": ")) why),
        record counted { disk = d },
      )
      | ok _ ↦ elim finished [
        | err why ↦ (err why, record counted { disk = d' })
        | ok _ ↦ (ok unique, record counted { disk = d'; files = Dict.insert unique dst s.files })
      ]
    ]

-- The session as an endpoint of `syncPair`.
abbrev pub maildir : (ℕ → ℕ) → (Text → Text) → Host → Endpoint
maildir fold quote host = record {
  State = State;
  select = select fold;
  list_ids = list_ids;
  fetch_meta = fetch_meta;
  open_message = open_message quote;
  append = append host;
  read_only = false;
}
