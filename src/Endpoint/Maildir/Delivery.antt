-- ===== src/Endpoint/Maildir/Delivery.antt =====
-- What `Append` of internal/endpoint/maildir.go leaves on the disk and in the session.
use imapsync.Base.{
  ◌+◌, ◌≡◌, refl, ◌∙◌, false, none, some, List, [], arith, ◌==◌, list_eq, nat_eq, eq_refl,
  if◌then◌else◌, contains,
}
use imapsync.Base.Text.{Text, text}
use imapsync.Base.Dict
use imapsync.Base.Dict.{lookup-insert, lookup-erase}
use imapsync.Base.Time.{Time, is_zero}
use imapsync.Base.Result.{Result, ok}
use imapsync.Endpoint.{Literal, buffered, bytes}
use imapsync.Endpoint.Maildir.{flag_suffix}
use imapsync.Endpoint.Maildir.Disk.{
  Call, reading, writing, closing, renaming, creating, Disk, File, join, create_file, read_file,
  put_file, remove, rename,
}
use imapsync.Endpoint.Maildir.Session.{
  State, Host, unique_name, delivered_to, sub_of, finish, append, open_message,
}

-- The disk refuses no call.
abbrev pub IsWorking : Disk → Type 0
IsWorking d = (call : Call) (path : Text) → d.broken call path ≡ none

-- The file that a delivery leaves.
abbrev pub delivered : Time → Time → Text → File
delivered now date content = record {
  content = content;
  modified = if is_zero date then now else date;
}

module _ (now : Time) (tmp sub dst : Text) (date : Time) (content : Text) (d : Disk)
    (working : IsWorking d) where
  abbrev after : Result (Unit {0}) × Disk
  after = finish now tmp sub dst date content d

  lookup-finish :
      (p : Text)
      → Dict.lookup p after.1.files ≡ (
          if dst == p
          then some (delivered now date content)
          else if tmp == p
          then none
          else Dict.lookup p d.files)
  unfolding finish put_file rename
  lookup-finish p =
      let f = delivered now date content in
      let written = Dict.insert tmp f d.files in
      ground (
        arith,
        working writing tmp,
        working closing tmp,
        working renaming dst,
        eq_refl tmp,
        lookup-insert tmp tmp f d.files,
        lookup-insert dst p f (Dict.erase tmp written),
        lookup-erase tmp p written,
        lookup-insert tmp p f d.files,
      )

  finish_ok : after.0 ≡ ok tt
  unfolding finish put_file rename
  finish_ok =
      let f = delivered now date content in
      ground (
        arith,
        working writing tmp,
        working closing tmp,
        working renaming dst,
        eq_refl tmp,
        lookup-insert tmp tmp f d.files,
      )

  finish_broken : (call : Call) (p : Text) → after.1.broken call p ≡ none
  unfolding finish put_file rename remove
  finish_broken call p = ground (arith, working call p)

module _ (quote : Text → Text) (host : Host) (flags : List Text) (date : Time) (body : Literal)
    (s : State) (working : IsWorking s.disk) where
  abbrev pub unique : Text
  unique = unique_name host (s.counter + 1)

  abbrev pub tmp_path : Text
  tmp_path = join (join s.folder (text "tmp")) unique

  abbrev pub dst_path : Text
  dst_path = delivered_to s.folder unique (flag_suffix flags)

  abbrev created : Disk
  created = record (s.disk) {
    files = Dict.insert tmp_path (record { content = []; modified = host.now }) s.disk.files;
  }

  abbrev filed : Disk
  filed =
      (finish host.now tmp_path (sub_of (flag_suffix flags)) dst_path date (bytes body) created).1

  abbrev appended : State
  appended = record s {
    counter = s.counter + 1;
    disk = filed;
    files = Dict.insert unique dst_path s.files;
  }

  create_file-free :
      Dict.member tmp_path s.disk.files ≡ false
      → contains s.disk.dirs tmp_path ≡ false
      → create_file host.now tmp_path s.disk ≡ (ok tt, created)
  unfolding create_file
  create_file-free free no_dir = rw (create_file, working creating tmp_path, free, no_dir) refl

  append-free :
      Dict.member tmp_path s.disk.files ≡ false
      → contains s.disk.dirs tmp_path ≡ false
      → append host flags date body s ≡ (ok unique, appended)
  unfolding append
  append-free free no_dir = ground (
    arith,
    create_file-free free no_dir,
    finish_ok host.now tmp_path (sub_of (flag_suffix flags)) dst_path date (bytes body) created
        working,
  )

  file_at :
      (p : Text)
      → Dict.lookup p filed.files ≡ (
          if dst_path == p
          then some (delivered host.now date (bytes body))
          else if tmp_path == p
          then none
          else Dict.lookup p s.disk.files)
  file_at p =
      lookup-finish host.now tmp_path (sub_of (flag_suffix flags)) dst_path date (bytes body)
        created working p
      ∙ ground (
        arith,
        lookup-insert tmp_path p (record { content = []; modified = host.now }) s.disk.files,
      )

  open_appended : (open_message quote unique appended).0 ≡ ok (buffered (bytes body))
  unfolding open_message read_file
  open_appended = ground (
    arith,
    lookup-insert unique unique dst_path s.files,
    eq_refl unique,
    eq_refl dst_path,
    file_at dst_path,
    finish_broken host.now tmp_path (sub_of (flag_suffix flags)) dst_path date (bytes body) created
        working reading dst_path,
  )

  -- On a disk that refuses no call, where the temporary name is free, a message that is appended has
  -- its unique name as id and opens as the bytes that were given. The disk then has exactly one file
  -- more or changed, the delivered one; nothing stands under the temporary name; every other file is
  -- as it was.
  pub append_delivers :
      Dict.member tmp_path s.disk.files ≡ false
      → contains s.disk.dirs tmp_path ≡ false
      → let r = append host flags date body s in
        (r.0 ≡ ok unique)
        × ((open_message quote unique r.1).0 ≡ ok (buffered (bytes body)))
        × ((p : Text)
            → Dict.lookup p r.1.disk.files ≡ (
                if dst_path == p
                then some (delivered host.now date (bytes body))
                else if tmp_path == p
                then none
                else Dict.lookup p s.disk.files))
  append_delivers free no_dir = rw (append-free free no_dir) (refl, open_appended, file_at)
