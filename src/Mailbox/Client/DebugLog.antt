-- ===== src/Mailbox/Client/DebugLog.antt =====
-- `debugLogWriter` of internal/mailbox/client.go: the wire traffic comes in pieces and is logged in
-- lines.
use imapsync.Base.{
  ◌≡◌, refl, sym, ap, ◌∙◌, ℕ, zero, suc, ◌≤◌, Bool, true, false, none, some, List, [], ◌∷◌, ◌++◌,
  arith, append-nil, append_assoc, ◌==◌, eq_iff, nat_eq, contains, contains-append, length,
  length-append, take, drop, if◌then◌else◌, Bool-cases, inl, inr,
}
use imapsync.Base.Text.{Text, is_empty, index_code, trim_left}
use mathlib.Core.List.{reverse}
use mathlib.Core.Path.{subst}

-- `logged` has what `logf` was called with, the last call last.
pub record Writer : Type 0 where
  pub logged : List Text
  pub buf : Text

-- `bytes.TrimRight(s, "\r")`
unfoldable pub trim_returns : Text → Text
trim_returns s = reverse (trim_left (λ c. c == 13) (reverse s))

-- `if len(line) > 0 { w.logf(…) }`
unfoldable pub log_line : Text → Text → List Text → List Text
unfolding trim_returns
log_line prefix raw logged =
    let line = trim_returns raw in
    if is_empty line then logged else logged ++ ((prefix ++ line) ∷ [])

-- The loop of `Write`. The fuel is the length of the buffer; each round takes a line off it.
unfoldable pub drain : ℕ → Text → Writer → Writer
unfolding log_line
drain zero prefix w = w
drain (suc fuel) prefix w = elim (index_code 10 w.buf) [
  | none ↦ w
  | some i ↦
      drain fuel prefix
        (record { logged = log_line prefix (take i w.buf) w.logged; buf = drop (suc i) w.buf })
]

unfoldable pub write : Text → Text → Writer → Writer
unfolding drain
write prefix p w = let buf = w.buf ++ p in drain (length buf) prefix (record w { buf = buf })

-- The same for one character after the other.
unfoldable pub write_each : Text → Text → Writer → Writer
write_each prefix [] w = w
write_each prefix (c ∷ p) w = write_each prefix p (
    if c == 10
    then record { logged = log_line prefix w.buf w.logged; buf = [] }
    else record w { buf = w.buf ++ (c ∷ []) })

index_code-absent : (s : Text) → contains s 10 ≡ false → index_code 10 s ≡ none
unfolding index_code
index_code-absent [] h = refl
index_code-absent (c ∷ s) h = ground (arith, eq_iff c 10, eq_iff 10 c, index_code-absent s)

index_code-append :
    (b p : Text) → contains b 10 ≡ false → index_code 10 (b ++ (10 ∷ p)) ≡ some (length b)
unfolding index_code
index_code-append [] p h = refl
index_code-append (c ∷ b) p h = ground (arith, eq_iff c 10, eq_iff 10 c, index_code-append b p)

take-append : (b p : Text) → take (length b) (b ++ p) ≡ b
take-append [] p = refl
take-append (c ∷ b) p = ap (◌∷◌ c) (take-append b p)

drop-append : (b p : Text) (c : ℕ) → drop (suc (length b)) (b ++ (c ∷ p)) ≡ p
drop-append [] p c = refl
drop-append (d ∷ b) p c = drop-append b p c

drain-write_each :
    (fuel : ℕ) (prefix p b : Text) (logged : List Text)
    → contains b 10 ≡ false
    → length p ≤ fuel
    → drain fuel prefix (record { logged = logged; buf = b ++ p })
      ≡ write_each prefix p (record { logged = logged; buf = b })
unfolding drain write_each
drain-write_each zero prefix [] b logged clean enough = rw (append-nil b) refl
drain-write_each (suc fuel) prefix [] b logged clean enough =
    rw (append-nil b) (rw (drain, index_code-absent b clean) refl)
drain-write_each zero prefix (c ∷ p) b logged clean enough = absurd (omega arith)
drain-write_each (suc fuel) prefix (c ∷ p) b logged clean enough = elim (Bool-cases (c == 10)) [
  | inl end ↦
      let newline : c ≡ 10 = (eq_iff c 10).0 end in
      let flushed =
        drain-write_each fuel prefix p [] (log_line prefix b logged) refl (omega (arith, enough)) in
      subst
        (λ d.
          drain (suc fuel) prefix (record { logged = logged; buf = b ++ (d ∷ p) })
          ≡ write_each prefix (d ∷ p) (record { logged = logged; buf = b }))
        (sym newline)
        (rw (drain, index_code-append b p clean, take-append b (10 ∷ p), drop-append b p 10)
          flushed)
  | inr inside ↦
      let rest =
        drain-write_each (suc fuel) prefix p (b ++ (c ∷ [])) logged
          (ground (arith, contains-append b (c ∷ []) 10, eq_iff 10 c, eq_iff c 10))
          (omega (arith, enough)) in
      rw inside (
        ap (λ t. drain (suc fuel) prefix (record { logged = logged; buf = t }))
          (sym (append_assoc b (c ∷ []) p))
        ∙ rest)
]

write_lem :
    (prefix p : Text) (w : Writer)
    → contains w.buf 10 ≡ false
    → write prefix p w ≡ write_each prefix p w
unfolding write
write_lem prefix p w clean =
    drain-write_each (length (w.buf ++ p)) prefix p w.buf w.logged clean
      (omega (arith, length-append w.buf p))

contains-write_each :
    (prefix p : Text) (w : Writer)
    → contains w.buf 10 ≡ false
    → contains (write_each prefix p w).buf 10 ≡ false
unfolding write_each
contains-write_each prefix [] w clean = clean
contains-write_each prefix (c ∷ p) w clean = contains-write_each prefix p _ (go (c == 10) refl)
  where
    go :
        (b : Bool)
        → (c == 10) ≡ b
        → contains
            (if b
              then record { logged = log_line prefix w.buf w.logged; buf = [] }
              else record w { buf = w.buf ++ (c ∷ []) }).buf
            10
          ≡ false
    go true e = refl
    go false e =
        ground (arith, clean, e, contains-append w.buf (c ∷ []) 10, eq_iff 10 c, eq_iff c 10)

write_each-append :
    (prefix p q : Text) (w : Writer)
    → write_each prefix (p ++ q) w ≡ write_each prefix q (write_each prefix p w)
unfolding write_each
write_each-append prefix [] q w = refl
write_each-append prefix (c ∷ p) q w = write_each-append prefix p q _

-- It does not matter into which pieces the traffic is cut: two writes log the same lines, and leave
-- the same rest, as one write of both pieces. The buffer has no newline before, as a new one has
-- none, and has none afterwards.
pub write-append :
    (prefix p q : Text) (w : Writer)
    → contains w.buf 10 ≡ false
    → (write prefix q (write prefix p w) ≡ write prefix (p ++ q) w)
      × (contains (write prefix p w).buf 10 ≡ false)
write-append prefix p q w clean =
    let kept = contains-write_each prefix p w clean in
    rw
      (
        write_lem prefix p w clean,
        write_lem prefix q (write_each prefix p w) kept,
        write_lem prefix (p ++ q) w clean,
      )
      (sym (write_each-append prefix p q w), kept)
