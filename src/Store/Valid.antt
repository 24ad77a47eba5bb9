-- ===== src/Store/Valid.antt =====
-- The rows of `users` and `folder_pairs` that internal/store/store.go writes.
pub mod Imports
use imapsync.Base.{
  ◌≡◌, refl, ◌∙◌, ℕ, ◌+◌, Bool, true, false, ◌&&◌, ◌||◌, not, Option, none, some, List, [], ◌∷◌,
  ◌++◌, arith, All, All-append, IsDistinct, ◌==◌, list_eq, nat_eq, if◌then◌else◌, Bool-cases, inl,
  inr, any, filter,
}
use imapsync.Base.Text.{Text, trim_space, is_empty}
use imapsync.Base.Text.Trim.{is_empty-trim_space}
use imapsync.Base.Dict
use imapsync.Base.Dict.Rows.{All-insert, All-erase, All-lookup, IsDistinct-insert, IsDistinct-erase}
use imapsync.Base.Result.{Error, Result, ok, err}
use imapsync.Config.{User, FolderPair, Config}
use imapsync.Config.Servers.{is_blank}
use imapsync.Store.Tables.{Store, UserRow, StatusRow, statement}
use imapsync.Store.Runs.{resume_user, forget_user, vacuum}
use imapsync.Store.Users.{
  upsert_user, upsert_folder_pair, same_pair_names, set_user_enabled, delete_user,
  delete_folder_pair, import_folders, import_users, import_config, Imported,
}

abbrev pub IsValidUser : Text × UserRow → Type 0
IsValidUser p =
    (is_blank p.0 ≡ false) × (is_blank (p.1).user_a ≡ false) × (is_blank (p.1).user_b ≡ false)

abbrev pub IsValidPair : FolderPair → Type 0
IsValidPair fp = (is_blank fp.a ≡ false) × (is_blank fp.b ≡ false)

-- Each user has a name and two addresses, each pair two folders, and no name stands twice.
abbrev pub IsValid : Store → Type 0
IsValid s =
    All IsValidUser s.users × IsDistinct (Dict.keys s.users) × All IsValidPair s.folder_pairs

All-filter :
    (p : FolderPair → Bool) (xs : List FolderPair)
    → All IsValidPair xs
    → All IsValidPair (filter p xs)
All-filter p [] h = tt
All-filter p (x ∷ xs) (now, h) = go (p x) (All-filter p xs h)
  where
    go :
        (b : Bool)
        → All IsValidPair (filter p xs)
        → All IsValidPair (if b then x ∷ filter p xs else filter p xs)
    go true rest = (now, rest)
    go false rest = rest

-- A statement that fails changes nothing.
statement-IsValid :
    {A : Type 0} (fault : Option Error) (context : Text) (after : Result A × Store) (s : Store)
    → IsValid after.1
    → IsValid s
    → IsValid (statement fault context after s).1
statement-IsValid none context after s valid before = valid
statement-IsValid (some e) context after s valid before = before

-- A trimmed field that is not empty is not blank.
is_blank-trim_space : (t : Text) → is_empty (trim_space t) ≡ false → is_blank (trim_space t) ≡ false
unfolding is_blank
is_blank-trim_space t h = is_empty-trim_space t ∙ h

pub upsert_user-IsValid :
    (fault : Option Error) (u : User) (enabled : Bool) (s : Store)
    → IsValid s
    → IsValid (upsert_user fault u enabled s).1
unfolding upsert_user
upsert_user-IsValid fault u enabled s (users, names, pairs) =
    elim (Bool-cases (
      is_empty (trim_space u.name)
      || is_empty (trim_space u.user_a)
      || is_empty (trim_space u.user_b))) [
        | inl blank ↦ rw (upsert_user, blank) (users, names, pairs)
        | inr full ↦
            rw (upsert_user, full)
              (statement-IsValid fault _ _ s
                (
                  All-insert IsValidUser _ _ s.users
                      (
                        is_blank-trim_space u.name (ground arith),
                        is_blank-trim_space u.user_a (ground arith),
                        is_blank-trim_space u.user_b (ground arith),
                      )
                      users,
                  IsDistinct-insert _ _ s.users names,
                  pairs,
                )
                (users, names, pairs))
      ]

pub upsert_folder_pair-IsValid :
    (fault : Option Error) (fp : FolderPair) (s : Store)
    → IsValid s
    → IsValid (upsert_folder_pair fault fp s).1
unfolding upsert_folder_pair
upsert_folder_pair-IsValid fault fp s (users, names, pairs) =
    elim (Bool-cases (is_empty (trim_space fp.a) || is_empty (trim_space fp.b))) [
      | inl blank ↦ rw (upsert_folder_pair, blank) (users, names, pairs)
      | inr full ↦
          rw (upsert_folder_pair, full)
            (statement-IsValid fault _ _ s
              (go
                (any (same_pair_names (record { a = trim_space fp.a; b = trim_space fp.b }))
                  s.folder_pairs)
                (is_blank-trim_space fp.a (ground arith), is_blank-trim_space fp.b (ground arith)))
              (users, names, pairs))
    ]
  where
    go :
        (found : Bool)
        → IsValidPair (record { a = trim_space fp.a; b = trim_space fp.b })
        → IsValid (
            if found then s else record s {
              folder_pairs =
                  s.folder_pairs ++ (record { a = trim_space fp.a; b = trim_space fp.b } ∷ []);
            })
    go true new = (users, names, pairs)
    go false new = (users, names, All-append IsValidPair s.folder_pairs _ pairs (new, tt))

pub set_user_enabled-IsValid :
    (fault : Option Error) (raw : Text) (enabled : Bool) (s : Store)
    → IsValid s
    → IsValid (set_user_enabled fault raw enabled s).1
unfolding set_user_enabled
set_user_enabled-IsValid fault raw enabled s (users, names, pairs) =
    go (Dict.lookup (trim_space raw) s.users) refl
  where
    go :
        (found : Option UserRow)
        → Dict.lookup (trim_space raw) s.users ≡ found
        → IsValid (set_user_enabled fault raw enabled s).1
    go none e =
        rw (set_user_enabled, e)
          (statement-IsValid fault _ _ s (users, names, pairs) (users, names, pairs))
    go (some row) e =
        rw (set_user_enabled, e)
          (statement-IsValid fault _ _ s
            (
              All-insert IsValidUser _ _ s.users
                  (All-lookup IsValidUser (trim_space raw) row s.users users e) users,
              IsDistinct-insert _ _ s.users names,
              pairs,
            )
            (users, names, pairs))

pub delete_user-IsValid :
    (fault : Option Error) (raw : Text) (s : Store)
    → IsValid s
    → IsValid (delete_user fault raw s).1
unfolding delete_user
delete_user-IsValid fault raw s (users, names, pairs) =
    elim (Bool-cases (Dict.member (trim_space raw) s.users)) [
      | inl found ↦
          rw (delete_user, found)
            (statement-IsValid fault _ _ s
              (All-erase IsValidUser _ s.users users, IsDistinct-erase _ s.users names, pairs)
              (users, names, pairs))
      | inr missing ↦
          rw (delete_user, missing)
            (statement-IsValid fault _ _ s (users, names, pairs) (users, names, pairs))
    ]

pub delete_folder_pair-IsValid :
    (fault : Option Error) (fp : FolderPair) (s : Store)
    → IsValid s
    → IsValid (delete_folder_pair fault fp s).1
unfolding delete_folder_pair
delete_folder_pair-IsValid fault fp s (users, names, pairs) =
    elim (Bool-cases (
      any (same_pair_names (record { a = trim_space fp.a; b = trim_space fp.b })) s.folder_pairs)) [
        | inl found ↦
            rw (delete_folder_pair, found)
              (statement-IsValid fault _ _ s (users, names, All-filter _ s.folder_pairs pairs)
                (users, names, pairs))
        | inr missing ↦
            rw (delete_folder_pair, missing)
              (statement-IsValid fault _ _ s (users, names, pairs) (users, names, pairs))
      ]

-- The operations on the state leave the users and the pairs as they are.
pub resume_user-IsValid :
    (fault : Option Error) (name : Text) (s : Store)
    → IsValid s
    → IsValid (resume_user fault name s).1
unfolding resume_user
resume_user-IsValid fault name s valid = go (Dict.lookup (trim_space name) s.user_status) refl
  where
    go :
        (found : Option StatusRow)
        → Dict.lookup (trim_space name) s.user_status ≡ found
        → IsValid (resume_user fault name s).1
    go none e = rw (resume_user, e) (statement-IsValid fault _ _ s valid valid)
    go (some row) e = rw (resume_user, e) (statement-IsValid fault _ _ s valid valid)

pub forget_user-IsValid :
    (fault : Option Error) (name : Text) (s : Store)
    → IsValid s
    → IsValid (forget_user fault name s).1
unfolding forget_user
forget_user-IsValid fault name s valid = statement-IsValid fault _ _ s valid valid

pub vacuum-IsValid : (fault : Option Error) (s : Store) → IsValid s → IsValid (vacuum fault s).1
unfolding vacuum
vacuum-IsValid fault s valid = statement-IsValid fault _ _ s valid valid
