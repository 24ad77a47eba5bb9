-- ===== src/Endpoint/Maildir/Folders.antt =====
-- `Connect`, `ListFolders` and `CreateFolder` of internal/endpoint/maildir.go.
use imapsync.Base.{
  ℕ, true, ◌||◌, not, Option, none, some, List, [], ◌∷◌, ◌++◌, ◌==◌, list_eq, nat_eq, if◌then◌else◌,
}
use imapsync.Base.Text.{Text, text, has_prefix, equal_fold, is_empty, trim, filter_map}
use imapsync.Base.Result.{Result, ok, err, errorf, wrap}
use imapsync.Base.Dict
use imapsync.Endpoint.{FolderInfo}
use imapsync.Endpoint.Maildir.{expand_user, dotted, slashed, maildir_special_use_of}
use imapsync.Endpoint.Maildir.Disk.{Disk, DirEntry, join, is_dir, read_dir, stating}
use imapsync.Endpoint.Maildir.Session.{State, make_subs, subs}

-- `Connect`: the user's directory must be there.
unfoldable pub connect : Text → Text → Disk → Result State
connect root_tmpl user d =
    let root = expand_user root_tmpl user in
    let context = text "maildir " ++ (root ++ (text " (user " ++ (user ++ text "): "))) in
    elim (d.broken stating root) [
      | some why ↦ err (wrap context why)
      | none ↦
          if is_dir root d
          then ok (record { root = root; folder = []; files = []; disk = d; counter = 0 })
          else if Dict.member root d.files
          then err (errorf (context ++ text "not a directory"))
          else err
              (errorf (context ++ (text "stat " ++ (root ++ text ": no such file or directory"))))
    ]

abbrev pub inbox : FolderInfo
inbox = record { name = text "INBOX"; special_use = []; selectable = true }

-- An entry of the root that is a folder: a hidden directory with `cur` inside.
unfoldable pub folder_of : (ℕ → ℕ) → Text → Disk → DirEntry → Option FolderInfo
folder_of fold root d ent =
    let n = trim (λ c. c == b'.') ent.name in
    if not ent.is_directory || not (has_prefix ent.name (text "."))
    then none
    else if is_empty n
    then none
    else if not (is_dir (join (join root ent.name) (text "cur")) d)
    then none
    else some (record {
      name = slashed n;
      special_use = maildir_special_use_of fold n;
      selectable = true;
    })

unfoldable pub list_folders : (ℕ → ℕ) → State → Result (List FolderInfo) × State
unfolding folder_of
list_folders fold s = elim (read_dir s.root s.disk) [
  | err why ↦ (err (wrap (text "maildir " ++ (s.root ++ text ": listing folders: ")) why), s)
  | ok ents ↦ (ok (inbox ∷ filter_map (folder_of fold s.root s.disk) ents), s)
]

unfoldable pub create_folder : (ℕ → ℕ) → (Text → Text) → Text → State → Result (Unit {0}) × State
create_folder fold quote name s =
    let n = dotted name in
    let (made, d) =
      make_subs
        (λ sub.
          text "maildir " ++ (s.root ++ (text ": creating folder " ++ (quote name ++ text ": "))))
        (join s.root (b'.' ∷ n)) subs s.disk in
    if is_empty n || equal_fold fold name (text "INBOX")
    then (ok tt, s)
    else (made, record s { disk = d })
