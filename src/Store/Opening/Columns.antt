-- ===== src/Store/Opening/Columns.antt =====
-- `ensureUserPathColumns` changes nothing that is read of the users.
use imapsync.Base.{
  ◌≡◌, refl, ◌∙◌, true, false, Option, none, some, List, [], ◌∷◌, ◌++◌, map, arith, IsDistinct,
  ◌==◌, eq_iff, eq_comm, list_eq, nat_eq, eq_refl, contains, contains-append, if◌then◌else◌,
  Bool-cases, inl, inr,
}
use imapsync.Base.Text.{Text, text}
use imapsync.Base.Dict
use imapsync.Base.Dict.{Dict, lookup-insert}
use imapsync.Base.Result.{Error, Result, ok, err}
use imapsync.Store.Tables.{UserRow}
use imapsync.Store.Opening.{StoredUser, UserTable, OpenFaults, add_column, add_missing, add_columns}

-- What a query reads: an absent table has no rows, an absent column no text.
abbrev pub rows_of {ℓ} : {A : Type ℓ} → Option (List A) → List A
rows_of none = []
rows_of (some rows) = rows

abbrev pub value_of : Option Text → Text
value_of none = []
value_of (some v) = v

abbrev pub path_of : List Text → Text → StoredUser → Text
path_of columns col u = if contains columns col then value_of (Dict.lookup col u.paths) else []

abbrev pub user_row : List Text → StoredUser → UserRow
user_row columns u = record {
  user_a = u.user_a;
  user_b = u.user_b;
  path_a = path_of columns (text "path_a") u;
  path_b = path_of columns (text "path_b") u;
  enabled = u.enabled;
}

-- The rows of `users` as the program reads them.
unfoldable pub users_of : List Text → Dict Text StoredUser → Dict Text UserRow
users_of columns [] = []
users_of columns ((name, u) ∷ rows) = (name, user_row columns u) ∷ users_of columns rows

path_of-insert :
    (columns : List Text) (new col : Text) (u : StoredUser)
    → contains columns new ≡ false
    → path_of (columns ++ (new ∷ [])) col (record u { paths = Dict.insert new [] u.paths })
      ≡ path_of columns col u
path_of-insert columns new col u absent = ground (
  arith,
  contains-append columns (new ∷ []) col,
  lookup-insert new col [] u.paths,
  eq_iff col new,
  eq_comm col new,
)

users_of-add_column :
    (t : UserTable) (new : Text)
    → contains t.columns new ≡ false
    → users_of (add_column new t).columns (add_column new t).rows ≡ users_of t.columns t.rows
unfolding add_column users_of
users_of-add_column t new absent = go t.rows
  where
    go :
        (rows : Dict Text StoredUser)
        → users_of
            (t.columns ++ (new ∷ []))
            (map (λ p. (p.0, record (p.1) { paths = Dict.insert new [] (p.1).paths })) rows)
          ≡ users_of t.columns rows
    go [] = refl
    go ((name, u) ∷ rows) =
        rw
          (
            path_of-insert t.columns new (text "path_a") u absent,
            path_of-insert t.columns new (text "path_b") u absent,
            go rows,
          )
          refl

abbrev pub view : UserTable → Dict Text UserRow
view t = users_of t.columns t.rows

-- One column changes nothing that is read, and no other column's presence.
add_missing_lem :
    (f : OpenFaults) (have : List Text) (col : Text) (t : UserTable)
    → contains t.columns col ≡ contains have col
    → (view (add_missing f have col t).1 ≡ view t)
      × ((c : Text)
          → (c == col) ≡ false
          → contains (add_missing f have col t).1.columns c ≡ contains t.columns c)
unfolding add_missing
add_missing_lem f have col t same = go (f.adding col) refl
  where
    go :
        (fault : Option Error)
        → f.adding col ≡ fault
        → (view (add_missing f have col t).1 ≡ view t)
          × ((c : Text)
              → (c == col) ≡ false
              → contains (add_missing f have col t).1.columns c ≡ contains t.columns c)
    go none e = elim (Bool-cases (contains have col)) [
      | inl there ↦ rw (add_missing, there) (refl, λ c h. refl)
      | inr absent ↦
          rw (add_missing, absent, e)
            (
              users_of-add_column t col (same ∙ absent),
              λ c h. ground (arith, contains-append t.columns (col ∷ []) c),
            )
    ]
    go (some why) e = elim (Bool-cases (contains have col)) [
      | inl there ↦ rw (add_missing, there) (refl, λ c h. refl)
      | inr absent ↦ rw (add_missing, absent, e) (refl, λ c h. refl)
    ]

pub view-add_columns :
    (f : OpenFaults) (have cols : List Text) (t : UserTable)
    → IsDistinct cols
    → ((c : Text) → contains cols c ≡ true → contains t.columns c ≡ contains have c)
    → view (add_columns f have cols t).1 ≡ view t
unfolding add_columns
view-add_columns f have [] t distinct same = refl
view-add_columns f have (col ∷ cols) t (first, distinct) same =
    let (kept, others) = add_missing_lem f have col t (same col (ground (arith, eq_refl col))) in
    let t' = (add_missing f have col t).1 in
    go (add_missing f have col t).0 kept (
      view-add_columns f have cols t' distinct
        (λ c h. others c (ground (arith, eq_iff c col)) ∙ same c (ground arith)))
  where
    go :
        (outcome : Result (Unit {0}))
        → view (add_missing f have col t).1 ≡ view t
        → view (add_columns f have cols (add_missing f have col t).1).1
          ≡ view (add_missing f have col t).1
        → view
            (elim outcome as (λ _. Result (Unit {0}) × UserTable) [
              | err e ↦ (err e, (add_missing f have col t).1)
              | ok _ ↦ add_columns f have cols (add_missing f have col t).1
            ]).1
          ≡ view t
    go (err e) kept rest = kept
    go (ok _) kept rest = rest ∙ kept
