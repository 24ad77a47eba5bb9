-- ===== src/Endpoint/Ews/Paging.antt =====
-- The pages that `ListIDs` of internal/endpoint/ews.go asks for.
use imapsync.Base.{
  ℕ, zero, suc, ◌+◌, ◌≤◌, ◌≡◌, refl, sym, ap, ◌∙◌, false, not, List, [], ◌∷◌, ◌++◌, leb, ◌==◌,
  nat_eq, arith, All, filter, length, take, drop, take-drop, length-drop, Bool-cases, inl, inr,
  append-nil,
}
use imapsync.Base.Text.{Text, is_empty}
use imapsync.Base.Result.{ok}
use imapsync.Endpoint.Ews.Soap.{Service, State}
use imapsync.Endpoint.Ews.Session.{find_page, list_pages, list_ids}

drop_nothing : (n : ℕ) → drop {A = Text} n [] ≡ []
drop_nothing zero = refl
drop_nothing (suc n) = refl

drop-drop : (m n k : ℕ) (xs : List Text) → k ≡ m + n → drop n (drop m xs) ≡ drop k xs
drop-drop zero n k xs e = let same : n ≡ k = omega (arith, e) in ap (λ j. drop j xs) same
drop-drop (suc m) n zero xs e = absurd (omega (arith, e))
drop-drop (suc m) n (suc k) [] e = drop_nothing n
drop-drop (suc m) n (suc k) (x ∷ xs) e = drop-drop m n k xs (omega (arith, e))

drop_all : (n : ℕ) (xs : List Text) → length xs ≤ n → drop n xs ≡ []
drop_all n [] h = drop_nothing n
drop_all zero (x ∷ xs) h = absurd (omega (arith, h))
drop_all (suc n) (x ∷ xs) h = drop_all n xs (omega (arith, h))

take_all : (n : ℕ) (xs : List Text) → length xs ≤ n → take n xs ≡ xs
take_all n xs h =
    sym (append-nil (take n xs))
    ∙ ap (λ ys. take n xs ++ ys) (sym (drop_all n xs h))
    ∙ take-drop n xs

take_some : (n : ℕ) (xs : List Text) → 1 ≤ n → 1 ≤ length xs → (length (take n xs) == 0) ≡ false
take_some zero xs h h' = absurd (omega (arith, h))
take_some (suc n) [] h h' = absurd (omega (arith, h'))
take_some (suc n) (x ∷ xs) h h' = ground arith

abbrev pub AreNamed : List Text → Type 0
AreNamed xs = All (λ id. is_empty id ≡ false) xs

take-AreNamed : (n : ℕ) (xs : List Text) → AreNamed xs → AreNamed (take n xs)
take-AreNamed zero xs h = tt
take-AreNamed (suc n) [] h = tt
take-AreNamed (suc n) (x ∷ xs) (here, h) = (here, take-AreNamed n xs h)

drop-AreNamed : (n : ℕ) (xs : List Text) → AreNamed xs → AreNamed (drop n xs)
drop-AreNamed zero xs h = h
drop-AreNamed (suc n) [] h = tt
drop-AreNamed (suc n) (x ∷ xs) (here, h) = drop-AreNamed n xs h

filter-AreNamed : (xs : List Text) → AreNamed xs → filter (λ id. not (is_empty id)) xs ≡ xs
filter-AreNamed [] h = refl
filter-AreNamed (x ∷ xs) (here, h) = ground (arith, here, filter-AreNamed xs h)

-- A server with these items in the folder: it gives the page that it is asked for, and the last page
-- is the one in which the items end.
module _ {V : Service} (s : State V) (all : List Text)
    (pages : (offset : ℕ)
      → offset ≤ length all
      → find_page offset s ≡ (
        ok (record {
          last = leb (length all) (offset + s.batch);
          ids = take s.batch (drop offset all);
        }),
        s,
      ))
    (named : AreNamed all) (positive : 1 ≤ s.batch) where
  rest_named :
      (offset : ℕ)
      → filter (λ id. not (is_empty id)) (take s.batch (drop offset all))
        ≡ take s.batch (drop offset all)
  rest_named offset =
      filter-AreNamed (take s.batch (drop offset all))
        (take-AreNamed s.batch (drop offset all) (drop-AreNamed offset all named))

  list_pages-drop :
      (fuel offset : ℕ)
      → offset ≤ length all
      → length all + 1 ≤ offset + fuel
      → list_pages fuel offset s ≡ (ok (drop offset all), s)
  unfolding list_pages
  list_pages-drop zero offset within h =
      ap (λ ids. (ok ids, s)) (sym (drop_all offset all (omega (arith, h))))
  list_pages-drop (suc fuel) offset within h =
      let rest = drop offset all in
      let left = length-drop offset all in
      elim (Bool-cases (leb (length all) (offset + s.batch))) [
        | inl last ↦
            let whole = take_all s.batch rest (ground (arith, last, left)) in
            ground (arith, pages offset within, last, rest_named offset, whole)
        | inr more ↦
            let some_left = take_some s.batch rest positive (ground (arith, more, left)) in
            let onward = drop-drop offset s.batch (offset + s.batch) all refl in
            let next =
              list_pages-drop fuel (offset + s.batch) (ground (arith, more))
                (omega (arith, h, positive)) in
            ground (
              arith,
              pages offset within,
              more,
              rest_named offset,
              some_left,
              next,
              onward,
              take-drop s.batch rest,
            )
      ]

  -- Where the server gives the pages of a folder and every item has an id, `ListIDs` ends after at
  -- most one page more than there are items, and gives the ids of all items, in order, whatever the
  -- page size.
  pub list_ids-pages : (fuel : ℕ) → length all + 1 ≤ fuel → list_ids fuel s ≡ (ok all, s)
  list_ids-pages fuel h = list_pages-drop fuel 0 (omega arith) (omega (arith, h))
