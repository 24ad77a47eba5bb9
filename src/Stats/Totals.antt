-- ===== src/Stats/Totals.antt =====
-- The collector's invariant, and what the snapshot sums up.
use mathlib.Core.Option
use imapsync.Base.{
  ℕ, zero, suc, ◌≡◌, refl, ap, sym, ◌∙◌, Option, none, some, List, [], ◌∷◌, ◌++◌, length, list_eq,
  nat_eq, if◌then◌else◌, arith, ◌==◌, eq_iff, IsDistinct, IsDistinct-append_one, Bool-cases, inl,
  inr,
}
use imapsync.Base.Text.{Text}
use imapsync.Base.Dict
use imapsync.Base.Dict.{Dict, lookup-insert}
use imapsync.Base.Time.{Time}
use imapsync.Stats.{
  UserStats, Collector, get_elem?, modify, update, begin_cycle, begin_user, start, fresh_user,
}

pub get_elem?-modify :
    (us : List UserStats) (i j : ℕ) (f : UserStats → UserStats)
    → get_elem? (modify us i f) j
      ≡ (if i == j then Option.map f (get_elem? us j) else get_elem? us j)
unfolding get_elem? modify
get_elem?-modify [] i j f = ground arith
get_elem?-modify (u ∷ us) zero zero f = refl
get_elem?-modify (u ∷ us) zero (suc j) f = ground arith
get_elem?-modify (u ∷ us) (suc i) zero f = ground arith
get_elem?-modify (u ∷ us) (suc i) (suc j) f = ground (arith, get_elem?-modify us i j f)

-- A name leads to the statistics of a user of that name.
abbrev pub Holds : List UserStats → ℕ → Text → Type 0
Holds heap address name = (u : UserStats) × (get_elem? heap address ≡ some u) × (u.name ≡ name)

pub record IsSound (c : Collector) : Type 0 where
  pub listed : c.order ≡ Dict.keys c.by_name
  pub distinct : IsDistinct c.order
  pub named :
      (name : Text) (address : ℕ)
      → Dict.lookup name c.by_name ≡ some address
      → Holds c.heap address name

abbrev pub KeepsName : (UserStats → UserStats) → Type 0
KeepsName f = (u : UserStats) → (f u).name ≡ u.name

Holds-modify :
    (us : List UserStats) (i j : ℕ) (f : UserStats → UserStats) (name : Text)
    → KeepsName f
    → Holds us j name
    → Holds (modify us i f) j name
Holds-modify us i j f name keeps (u, at, e) = elim (Bool-cases (i == j)) [
  | inl same ↦ (f u, rw (get_elem?-modify us i j f, same, at), keeps u ∙ e)
  | inr other ↦ (u, rw (get_elem?-modify us i j f, other) at, e)
]

pub update-IsSound :
    (c : Collector) (address : ℕ) (f : UserStats → UserStats)
    → KeepsName f
    → IsSound c
    → IsSound (update address f c)
unfolding update
update-IsSound c address f keeps h = record {
  listed = h.listed;
  distinct = h.distinct;
  named = λ name j e. Holds-modify c.heap address j f name keeps (h.named name j e);
}

none-ne-some : {A : Type 0} {B : Type 0} (b : B) → ◌≡◌ {A = Option B} none (some b) → A
none-ne-some b e = cc

pub begin_cycle-IsSound : (now : Time) (c : Collector) → IsSound (begin_cycle now c)
unfolding begin_cycle Dict.keys Dict.lookup
begin_cycle-IsSound now c = record {
  listed = refl;
  distinct = tt;
  named = λ name j e. none-ne-some j e;
}

Holds-append :
    (us vs : List UserStats) (j : ℕ) (name : Text) → Holds us j name → Holds (us ++ vs) j name
unfolding get_elem?
Holds-append [] vs j name (u, at, e) = none-ne-some u at
Holds-append (w ∷ us) vs zero name h = h
Holds-append (w ∷ us) vs (suc j) name h = Holds-append us vs j name h

get_elem?-append_last :
    (us : List UserStats) (u : UserStats) → get_elem? (us ++ (u ∷ [])) (length us) ≡ some u
unfolding get_elem?
get_elem?-append_last [] u = refl
get_elem?-append_last (w ∷ us) u = get_elem?-append_last us u

named_new :
    (now : Time) (name other : Text) (j : ℕ) (c : Collector)
    → name ≡ other
    → j ≡ length c.heap
    → Holds (c.heap ++ (start now (fresh_user name) ∷ [])) j other
named_new now name other j c same at =
    (start now (fresh_user name), rw at (get_elem?-append_last c.heap _), same)

-- A user who is registered for the first time.
begin_new-IsSound :
    (now : Time) (name : Text) (c : Collector)
    → Dict.lookup name c.by_name ≡ none
    → IsSound c
    → IsSound (record c {
      heap = c.heap ++ (start now (fresh_user name) ∷ []);
      by_name = Dict.insert name (length c.heap) c.by_name;
      order = c.order ++ (name ∷ []);
    })
unfolding Dict.member
begin_new-IsSound now name c absent h = record {
  listed =
      ap (λ l. l ++ (name ∷ [])) h.listed
      ∙ sym (Dict.keys_insert_of_none name (length c.heap) c.by_name absent);
  distinct =
      IsDistinct-append_one c.order name h.distinct
        (rw (h.listed, Dict.contains-keys, Dict.member, absent));
  named = λ other j e. elim (Bool-cases (name == other)) [
    | inl same ↦
        named_new now name other j c (ground (arith, eq_iff name other))
          (ground (arith, lookup-insert name other (length c.heap) c.by_name))
    | inr differ ↦
        Holds-append c.heap _ j other
          (h.named other j (ground (arith, lookup-insert name other (length c.heap) c.by_name)))
  ];
}

begin_user_found :
    (now : Time) (name : Text) (c : Collector) (a : ℕ)
    → Dict.lookup name c.by_name ≡ some a
    → begin_user now name c ≡ (a, update a (start now) c)
unfolding begin_user update
begin_user_found now name c a e = rw (e, begin_user)

-- Every operation keeps the invariant: the order lists each registered name once, and each name
-- leads to statistics that carry it.
pub begin_user-IsSound :
    (now : Time) (name : Text) (c : Collector) → IsSound c → IsSound (begin_user now name c).1
unfolding begin_user
begin_user-IsSound now name c h = go (Dict.lookup name c.by_name) refl
  where
    go : (found : Option ℕ) → Dict.lookup name c.by_name ≡ found → IsSound (begin_user now name c).1
    go none e = rw (e, begin_user) (begin_new-IsSound now name c e h)
    go (some a) e =
        rw (begin_user_found now name c a e) (update-IsSound c a (start now) (λ u. refl) h)
