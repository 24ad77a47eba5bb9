-- ===== src/Mailbox/Client/Folders/Resolved.antt =====
-- Which folder `ResolveFolder` finds.
use imapsync.Base.{
  ℕ, ◌≡◌, refl, Bool, true, false, ◌&&◌, ◌||◌, Option, none, some, List, [], ◌∷◌, ◌==◌, list_eq,
  nat_eq, any, contains, map, arith, eq_refl, eq_iff,
}
use imapsync.Base.Text.{Text, text, replace_all}
use imapsync.Mailbox.Client.{MailboxInfo}
use imapsync.Mailbox.Client.Folders.{
  is_special_use, first_where, or_else, folder_delimiter, has_attribute, is_named, is_alike,
  by_special_use, by_native, resolve,
}

abbrev pub names : List MailboxInfo → List Text
names infos = map (λ m. m.name) infos

-- What the loop returns is the name of a folder of the list, and it returns one if any fits.
first_where-listed :
    (fits : MailboxInfo → Bool) (infos : List MailboxInfo) (n : Text)
    → first_where fits infos ≡ some n
    → contains (names infos) n ≡ true
unfolding first_where
first_where-listed fits [] n h = cc
first_where-listed fits (m ∷ infos) n h =
    ground (arith, first_where-listed fits infos n, eq_refl m.name)

first_where-any :
    (fits : MailboxInfo → Bool) (infos : List MailboxInfo)
    → first_where fits infos ≡ none
    → any fits infos ≡ false
unfolding first_where
first_where-any fits [] h = refl
first_where-any fits (m ∷ infos) h = ground (arith, first_where-any fits infos)

any-first_where :
    (fits : MailboxInfo → Bool) (infos : List MailboxInfo)
    → any fits infos ≡ false
    → first_where fits infos ≡ none
unfolding first_where
any-first_where fits [] h = refl
any-first_where fits (m ∷ infos) h = ground (arith, any-first_where fits infos)

first_where-is_named :
    (name : Text) (infos : List MailboxInfo)
    → contains (names infos) name ≡ true
    → first_where (λ m. m.name == name) infos ≡ some name
unfolding first_where
first_where-is_named name [] h = cc
first_where-is_named name (m ∷ infos) h =
    ground (arith, first_where-is_named name infos, eq_iff m.name name, eq_iff name m.name)

-- Every name that a search may give is in a list.
abbrev pub GivesListed : List MailboxInfo → Option Text → Type 0
GivesListed infos found = (n : Text) → found ≡ some n → contains (names infos) n ≡ true

or_else-GivesListed :
    (infos : List MailboxInfo) (a b : Option Text)
    → GivesListed infos a
    → GivesListed infos b
    → GivesListed infos (or_else a b)
or_else-GivesListed infos none b h k = k
or_else-GivesListed infos (some n) b h k = h

or_else-none : (a b : Option Text) → or_else a b ≡ none → (a ≡ none) × (b ≡ none)
or_else-none none b h = (refl, h)
or_else-none (some n) b h = cc

module _ (fold : ℕ → ℕ) where
  -- Some folder carries the SPECIAL-USE attribute of this name.
  unfoldable pub is_carried : Text → List MailboxInfo → Bool
  is_carried name infos = is_special_use name && any (has_attribute fold name) infos

  by_special_use-GivesListed :
      (name : Text) (infos : List MailboxInfo) → GivesListed infos (by_special_use fold name infos)
  unfolding by_special_use
  by_special_use-GivesListed name infos n h =
      ground (arith, first_where-listed (has_attribute fold name) infos n)

  by_special_use-is_carried :
      (name : Text) (infos : List MailboxInfo)
      → (by_special_use fold name infos ≡ none → is_carried name infos ≡ false)
        × (is_carried name infos ≡ false → by_special_use fold name infos ≡ none)
  unfolding by_special_use is_carried
  by_special_use-is_carried name infos = (
    λ h. ground (arith, first_where-any (has_attribute fold name) infos),
    λ h. ground (arith, any-first_where (has_attribute fold name) infos),
  )

  by_native-GivesListed :
      (name : Text) (infos : List MailboxInfo) → GivesListed infos (by_native fold name infos)
  unfolding by_native
  by_native-GivesListed name infos n h =
      let native = replace_all name (text "/") (folder_delimiter infos) in
      ground
        (arith, first_where-listed (λ m. is_named fold native m || is_alike fold native m) infos n)

  -- A name that `ResolveFolder` resolves to is the name of a listed folder.
  pub resolve-listed :
      (name : Text) (infos : List MailboxInfo) → GivesListed infos (resolve fold name infos)
  unfolding resolve
  resolve-listed name infos =
      or_else-GivesListed infos (by_special_use fold name infos) _
        (by_special_use-GivesListed name infos)
        (or_else-GivesListed infos (first_where (is_named fold name) infos) _
          (first_where-listed (is_named fold name) infos)
          (or_else-GivesListed infos (by_native fold name infos) _
            (by_native-GivesListed name infos) (first_where-listed (is_alike fold name) infos)))

  -- A listed folder is found by its own name, unless the name is a SPECIAL-USE attribute that some
  -- folder carries; and where nothing is found, no folder has the name in any case, or carries it.
  pub resolve_lem :
      (name : Text) (infos : List MailboxInfo)
      → (contains (names infos) name ≡ true
          → is_carried name infos ≡ false
          → resolve fold name infos ≡ some name)
        × (resolve fold name infos ≡ none
            → (any (is_alike fold name) infos ≡ false) × (is_carried name infos ≡ false))
  unfolding resolve
  resolve_lem name infos = (
    λ listed plain. ground (
      arith,
      first_where-is_named name infos listed,
      (by_special_use-is_carried name infos).1 plain,
    ),
    λ missing.
        let (special, rest) = or_else-none (by_special_use fold name infos) _ missing in
        let (exact, rest') = or_else-none (first_where (is_named fold name) infos) _ rest in
        let (native, alike) = or_else-none (by_native fold name infos) _ rest' in
        (
          first_where-any (is_alike fold name) infos alike,
          (by_special_use-is_carried name infos).0 special,
        ),
  )
