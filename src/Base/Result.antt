-- ===== src/Base/Result.antt =====
-- Go's errors, as `isConnErr` sees them, and results that may be one.
use mathlib.Core.Bool.{Bool, false}
use mathlib.Core.List.{◌++◌}
use imapsync.Base.Text.{Text}

-- What `errors.Is` and `errors.As` find in the chain of an error, and its text.
pub record Error : Type 0 where
  pub is_eof : Bool  -- io.EOF or net.ErrClosed
  pub is_net : Bool  -- a net.Error
  pub message : Text

-- `fmt.Errorf` with no `%w`
abbrev pub errorf : Text → Error
errorf message = record { is_eof = false; is_net = false; message = message }

-- `fmt.Errorf("…: %w", err)`
abbrev pub wrap : Text → Error → Error
wrap context err = record err { message = context ++ err.message }

pub data Result {ℓ} (A : Type ℓ) : Type ℓ where
  err : Error → Result A
  ok : A → Result A
