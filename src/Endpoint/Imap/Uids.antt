-- ===== src/Endpoint/Imap/Uids.antt =====
-- The ids that an IMAP session gives to its messages are read back as the UIDs they stand for.
use imapsync.Base.{
  ℕ, zero, suc, ◌+◌, ◌*◌, ◌-◌, ◌/◌, ◌%◌, ◌<◌, ◌≡◌, refl, true, false, List, [], ◌∷◌, arith, ltb,
  nat_eq, map, All, All,
}
use imapsync.Base.Text.{Text, is_empty}
use imapsync.Base.Time.{decimal, decimal_from}
use imapsync.Base.Result.{Error, ok}
use imapsync.Mailbox.Client.Fetching.{word}
use imapsync.Endpoint.Imap.{uid_str, parse_digits, parse_uint32, parse_uid, parse_each, no_uint}

decimal_from_some : (fuel n c : ℕ) (rest : Text) → is_empty (decimal_from fuel n (c ∷ rest)) ≡ false
unfolding decimal_from
decimal_from_some zero n c rest = refl
decimal_from_some (suc fuel) n c rest =
    ground (arith, decimal_from_some fuel (n / 10) (b'0' + n % 10) (c ∷ rest))

uid_str_some : (u : ℕ) → is_empty (uid_str u) ≡ false
unfolding decimal decimal_from
uid_str_some u =
    let one_more : u + 1 ≡ suc u = omega arith in
    ground (arith, decimal_from_some u (u / 10) (b'0' + u % 10) [], one_more)

module _ (refused : Text → Error) where
  -- One more digit.
  parse_digit :
      (d n : ℕ) (s : Text)
      → d < 10
      → n * 10 + d < word
      → parse_digits refused ((b'0' + d) ∷ s) n ≡ parse_digits refused s (n * 10 + d)
  unfolding parse_digits
  parse_digit d n s small fits =
      let value : (b'0' + d) - b'0' ≡ d = omega arith in ground (arith, value)

  parse_digits-decimal_from :
      (fuel n : ℕ) (rest : Text)
      → n < fuel
      → n < word
      → parse_digits refused (decimal_from fuel n rest) 0 ≡ parse_digits refused rest n
  unfolding decimal_from
  parse_digits-decimal_from zero n rest enough fits = absurd (omega (arith, enough))
  parse_digits-decimal_from (suc fuel) n rest enough fits =
      let small : n % 10 < 10 = omega arith in
      let sum : n / 10 * 10 + n % 10 ≡ n = omega arith in
      let last = parse_digit (n % 10) (n / 10) rest small (omega (arith, fits)) in
      let alone : ltb n 10 ≡ true → n / 10 ≡ 0 = λ one. ground (arith, one) in
      ground
        (arith, last, sum, alone, parse_digits-decimal_from fuel (n / 10) ((b'0' + n % 10) ∷ rest))

module _ (quote : Text → Text) where
  -- The UID of every message is 32 bits wide: `parseUID` reads what `uidStr` wrote.
  pub parse_uid-uid_str : (u : ℕ) → u < word → parse_uid quote (uid_str u) ≡ ok u
  unfolding parse_uid parse_uint32 decimal parse_digits
  parse_uid-uid_str u fits =
      let read : parse_digits (no_uint quote (uid_str u)) (uid_str u) 0 ≡ ok u =
        parse_digits-decimal_from (no_uint quote (uid_str u)) (u + 1) u [] (omega arith) fits in
      ground (arith, read, uid_str_some u)

  pub parse_each-uid_str :
      (us : List ℕ) → All (λ u. u < word) us → parse_each (parse_uid quote) (map uid_str us) ≡ ok us
  unfolding parse_each
  parse_each-uid_str [] h = refl
  parse_each-uid_str (u ∷ us) (fits, h) =
      ground (arith, parse_uid-uid_str u fits, parse_each-uid_str us h)
