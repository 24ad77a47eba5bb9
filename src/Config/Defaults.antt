-- ===== src/Config/Defaults.antt =====
-- `applyDefaults` of config/config.go.
use imapsync.Base.{
  ℕ, ◌≡◌, refl, ◌≢◌, false, arith, ◌==◌, ◌*◌, eq_iff, list_eq, nat_eq, if◌then◌else◌,
}
use imapsync.Base.Int.{ℤ, pos, int_eq}
use imapsync.Base.Text.{Text, text, is_empty}
use imapsync.Config.{Config, source_yaml, direction_both}

-- `if *x == 0 { *x = d }`
unfoldable pub default_int : ℤ → ℤ → ℤ
default_int d x = if x == pos 0 then d else x

unfoldable pub default_text : Text → Text → Text
default_text d x = if is_empty x then d else x

abbrev seconds : ℕ → ℤ
seconds n = pos (n * 1_000_000_000)

-- The ports and the other zero values are replaced, each on its own.
unfoldable pub apply_defaults : Config → Config
apply_defaults c = record c {
  server_a = record (c.server_a) { port = default_int (pos 993) c.server_a.port };
  server_b = record (c.server_b) { port = default_int (pos 993) c.server_b.port };
  workers = default_int (pos 4) c.workers;
  sync_interval = default_int (seconds 300) c.sync_interval;
  stats_interval = default_int (seconds 60) c.stats_interval;
  per_user_timeout = default_int (seconds 600) c.per_user_timeout;
  dial_timeout = default_int (seconds 30) c.dial_timeout;
  io_timeout = default_int (seconds 300) c.io_timeout;
  fetch_batch_size = default_int (pos 200) c.fetch_batch_size;
  hash_header = default_text (text "X-Imapsync-Hash") c.hash_header;
  source = default_text source_yaml c.source;
  direction = default_text direction_both c.direction;
  connect_retries = default_int (pos 3) c.connect_retries;
  retry_backoff = default_int (seconds 5) c.retry_backoff;
  full_resync_every = default_int (seconds 86400) c.full_resync_every;
  max_fail_streak = default_int (pos 10) c.max_fail_streak;
}

default_int_twice :
    (d x : ℤ) → (d == pos 0) ≡ false → default_int d (default_int d x) ≡ default_int d x
unfolding default_int
default_int_twice d x h = ground arith

default_text_twice :
    (d x : Text) → is_empty d ≡ false → default_text d (default_text d x) ≡ default_text d x
unfolding default_text
default_text_twice d x h = ground arith

-- Defaults are applied once: on a config that has them nothing changes.
pub apply_defaults_twice : (c : Config) → apply_defaults (apply_defaults c) ≡ apply_defaults c
unfolding apply_defaults int_eq
apply_defaults_twice c = cc (
  default_int_twice (pos 993) c.server_a.port refl,
  default_int_twice (pos 993) c.server_b.port refl,
  default_int_twice (pos 4) c.workers refl,
  default_int_twice (seconds 300) c.sync_interval refl,
  default_int_twice (seconds 60) c.stats_interval refl,
  default_int_twice (seconds 600) c.per_user_timeout refl,
  default_int_twice (seconds 30) c.dial_timeout refl,
  default_int_twice (seconds 300) c.io_timeout refl,
  default_int_twice (pos 200) c.fetch_batch_size refl,
  default_text_twice (text "X-Imapsync-Hash") c.hash_header refl,
  default_text_twice source_yaml c.source refl,
  default_text_twice direction_both c.direction refl,
  default_int_twice (pos 3) c.connect_retries refl,
  default_int_twice (seconds 5) c.retry_backoff refl,
  default_int_twice (seconds 86400) c.full_resync_every refl,
  default_int_twice (pos 10) c.max_fail_streak refl,
)

default_int-ne-zero : (d x : ℤ) → (d == pos 0) ≡ false → default_int d x ≢ pos 0
unfolding default_int
default_int-ne-zero d x h e = ground (arith, eq_iff x (pos 0), eq_iff d (pos 0))

-- After the defaults no retry count, rescan interval or error limit is 0: a 0 in the file does not
-- switch the feature off, it is replaced by 3 retries, 24 hours and 10 errors.
pub apply_defaults_nonzero :
    (c : Config)
    → ((apply_defaults c).connect_retries ≢ pos 0)
      × ((apply_defaults c).full_resync_every ≢ pos 0)
      × ((apply_defaults c).max_fail_streak ≢ pos 0)
      × (c.connect_retries ≡ pos 0 → (apply_defaults c).connect_retries ≡ pos 3)
      × (c.full_resync_every ≡ pos 0 → (apply_defaults c).full_resync_every ≡ seconds 86400)
      × (c.max_fail_streak ≡ pos 0 → (apply_defaults c).max_fail_streak ≡ pos 10)
unfolding apply_defaults int_eq default_int
apply_defaults_nonzero c = (
  default_int-ne-zero (pos 3) c.connect_retries refl,
  default_int-ne-zero (seconds 86400) c.full_resync_every refl,
  default_int-ne-zero (pos 10) c.max_fail_streak refl,
  λ e. rw e refl,
  λ e. rw e refl,
  λ e. rw e refl,
)
