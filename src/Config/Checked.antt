-- ===== src/Config/Checked.antt =====
-- What a validated configuration guarantees to the rest of the program.
use imapsync.Base.{
  ℕ, ◌+◌, ◌≤◌, ◌≡◌, refl, Bool, true, false, ◌&&◌, ◌||◌, not, Option, none, some, List, [], ◌∷◌,
  map, arith, ◌==◌, list_eq, nat_eq, contains, length, All, IsDistinct, eq_iff, eq_refl, ◌↔◌, ◌⊎◌,
}
use imapsync.Base.Int.{pos, int_ltb}
use imapsync.Base.Text.{Text, is_empty}
use imapsync.Config.{
  Server, FolderPair, User, Config, direction_a_to_b, direction_b_to_a, read_only_type,
  path_overridable,
}
use imapsync.Config.Servers.{
  refuse, first_error, is_blank, validate_server, check_range, parse_tls_version,
}
use imapsync.Config.Validate.{
  validate_base, check_read_only, check_users, check_user, check_folders, validate_entities,
}

-- A check passes only if each part of it does.
refuse-none {ℓ} :
    {E : Type ℓ} (b : Bool) (why : E) (rest : Option E)
    → refuse b why rest ≡ none
    → (b ≡ false) × (rest ≡ none)
refuse-none true why rest h = cc
refuse-none false why rest h = (refl, h)

pub first_error-none {ℓ} :
    {E : Type ℓ} (first rest : Option E)
    → first_error first rest ≡ none
    → (first ≡ none) × (rest ≡ none)
first_error-none none rest h = (refl, h)
first_error-none (some why) rest h = cc

module _ (lower : ℕ → ℕ) (load_ca : Text → Bool) where
  -- A valid configuration leaves a direction to copy in: one that is not switched off, towards a
  -- side that can be written.
  pub validate_base-direction :
      (c : Config)
      → validate_base lower load_ca c ≡ none
      → (not (c.direction == direction_b_to_a) && not (read_only_type c.server_b.type)
          || not (c.direction == direction_a_to_b) && not (read_only_type c.server_a.type))
        ≡ true
  unfolding validate_base check_read_only
  validate_base-direction c h =
      ground (arith, eq_iff c.direction direction_b_to_a, eq_iff c.direction direction_a_to_b)

  pub after_kind :
      (s : Server)
      → validate_server lower load_ca s ≡ none
      → check_range lower load_ca s
          (parse_tls_version lower load_ca s.min_tls_version)
          (parse_tls_version lower load_ca s.max_tls_version)
        ≡ none
  unfolding validate_server
  after_kind s h = (refuse-none _ _ _ (first_error-none _ _ h).1).1

  check_range_sound :
      (s : Server) (low high : Option ℕ)
      → check_range lower load_ca s low high ≡ none
      → (min : ℕ) × (max : ℕ) × (low ≡ some min)
        × (high ≡ some max)
        × ((min ≡ 0) ⊎ (max ≡ 0) ⊎ (min ≤ max))
  unfolding check_range
  check_range_sound s none high h = cc
  check_range_sound s (some min) none h = cc
  check_range_sound s (some min) (some max) h = (min, max, refl, refl, ground arith)

  -- A valid server has bounds on the TLS version that can be read, and if both are set the lower
  -- is not above the upper.
  pub validate_server-tls :
      (s : Server)
      → validate_server lower load_ca s ≡ none
      → (min : ℕ) × (max : ℕ) × (parse_tls_version lower load_ca s.min_tls_version ≡ some min)
        × (parse_tls_version lower load_ca s.max_tls_version ≡ some max)
        × ((min ≡ 0) ⊎ (max ≡ 0) ⊎ (min ≤ max))
  validate_server-tls s h =
      check_range_sound s (parse_tls_version lower load_ca s.min_tls_version)
        (parse_tls_version lower load_ca s.max_tls_version) (after_kind s h)

-- The fields of a user that `ValidateEntities` looks at.
abbrev pub IsUsable : Config → User → Type 0
IsUsable c u =
    (is_blank u.name ≡ false)
    × (is_blank u.user_a ≡ false)
    × (is_blank u.user_b ≡ false)
    × ((is_empty u.path_a ≡ true) ⊎ (path_overridable c.server_a.type ≡ true))
    × ((is_empty u.path_b ≡ true) ⊎ (path_overridable c.server_b.type ≡ true))

module _ (c : Config) where
  pub check_user_iff : (i : ℕ) (u : User) → (check_user c i u ≡ none) ↔ IsUsable c u
  unfolding check_user
  check_user_iff i u = (λ h. ground arith, λ h. ground arith)

  abbrev pub names : List User → List Text
  names us = map (λ u. u.name) us

  check_users-fresh :
      (k : Text) (i : ℕ) (seen : List Text) (us : List User)
      → check_users c i seen us ≡ none
      → contains seen k ≡ true
      → contains (names us) k ≡ false
  unfolding check_users
  check_users-fresh k i seen [] h m = refl
  check_users-fresh k i seen (u ∷ us) h m =
      ground (arith, check_users-fresh k (i + 1) (u.name ∷ seen) us, eq_iff k u.name)

  check_users_sound :
      (i : ℕ) (seen : List Text) (us : List User)
      → check_users c i seen us ≡ none
      → All (IsUsable c) us × IsDistinct (names us)
  unfolding check_users
  check_users_sound i seen [] h = (tt, tt)
  check_users_sound i seen (u ∷ us) h =
      let (now, later) = first_error-none _ _ h in
      let rest = (refuse-none _ _ _ later).1 in
      let (usable, distinct) = check_users_sound (i + 1) (u.name ∷ seen) us rest in
      (
        ((check_user_iff i u).0 now, usable),
        (
          check_users-fresh u.name (i + 1) (u.name ∷ seen) us rest (ground (arith, eq_refl u.name)),
          distinct,
        ),
      )

  check_folders_sound :
      (i : ℕ) (fs : List FolderPair)
      → check_folders i fs ≡ none
      → All (λ f. (is_blank f.a ≡ false) × (is_blank f.b ≡ false)) fs
  unfolding check_folders
  check_folders_sound i [] h = tt
  check_folders_sound i (f ∷ fs) h = (ground arith, check_folders_sound (i + 1) fs (ground arith))

  parts :
      validate_entities c ≡ none
      → (check_folders 0 c.folders ≡ none)
        × (check_users c 0 [] c.users ≡ none)
        × ((1 ≤ length c.users)
            × ((length c.users ≡ 1) ⊎ (int_ltb c.workers (pos (length c.users)) ≡ true))
            × ((1 ≤ length c.folders) ⊎ (c.sync_all_folders ≡ true)))
  unfolding validate_entities
  parts h = ground arith

  -- Where the lists are valid, no folder name is blank, every user can be used on both sides, no
  -- two users have one name, there is a user, and with more than one user there are fewer workers
  -- than users.
  pub validate_entities_sound :
      validate_entities c ≡ none
      → All (λ f. (is_blank f.a ≡ false) × (is_blank f.b ≡ false)) c.folders
        × All (IsUsable c) c.users
        × IsDistinct (names c.users)
        × (1 ≤ length c.users)
        × ((length c.users ≡ 1) ⊎ (int_ltb c.workers (pos (length c.users)) ≡ true))
        × ((1 ≤ length c.folders) ⊎ (c.sync_all_folders ≡ true))
  validate_entities_sound h =
      let (folders, users, counts) = parts h in
      let (usable, distinct) = check_users_sound 0 [] c.users users in
      (check_folders_sound 0 c.folders folders, usable, distinct, counts.0, counts.1, counts.2)
