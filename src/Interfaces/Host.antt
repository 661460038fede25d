-- ===== src/Interfaces/Host.antt =====
-- What the operating system gives: files, environment variables, time and random bytes. A failure
-- carries the text of the system's error.
use dzta.Prelude.{◌*◌, ℕ, ◌+◌, ◌≤◌, Text, Result, Option, Bool}
use dzta.Prelude.Int.{ℤ}

pub record FileSystem (World : Type 0) : Type 0 where
  -- Path::exists
  pub exists : Text → World → Bool
  -- fs::read, fs::read_to_string
  pub read : Text → World → Result Text Text × World
  pub read_to_string : Text → World → Result Text Text × World
  pub create_dir_all : Text → World → Result Text (Unit {0}) × World
  -- Path::parent
  pub parent : Text → Option Text

pub record Environment (World : Type 0) : Type 0 where
  -- std::env::var, where an error is `none`
  pub var : Text → World → Option Text

pub record Clock (World : Type 0) : Type 0 where
  -- nanoseconds of the monotonic clock
  pub instant : World → ℕ
  -- Utc::now().timestamp()
  pub now : World → ℤ
  -- Utc::now().to_rfc3339()
  pub now_rfc3339 : World → Text
  -- tokio::time::sleep, in milliseconds
  pub sleep : ℕ → World → World

-- A sleep lasts at least as long as it was told.
pub record ClockLaws {World : Type 0} (clock : Clock World) : Type 0 where
  pub instant-sleep :
      (ms : ℕ) (world : World)
      → clock.instant world + ms * 1000000 ≤ clock.instant (clock.sleep ms world)
