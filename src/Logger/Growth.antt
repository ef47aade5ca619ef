-- ===== src/Logger/Growth.antt =====
-- What a line adds to the log of logger/logger.cpp, and how far the log grows where it is split by its
-- size.
use tag_etl.Logger.LogFile.{log_file}
use tag_etl.Logger.{Outside, World}
use tag_etl.Prelude.{
  ℕ, suc, ◌+◌, ◌≤◌, ◌<◌, ◌≡◌, ◌≢◌, ◌⊎◌, true, false, ◌++◌, Option, none, some, length,
}
use tag_etl.Text.Number.{ℤ}
use tag_etl.Text.{Bytes}

-- date, level, tab, text and end of line
abbrev pub line_size : ℕ
line_size = 39 + 9 + 1 + 8191 + 1

-- An open log that is split by its size, with the largest size `m`, and holds `s`.
abbrev pub IsSized : World → ℕ → Bytes → Type 0
IsSized w m s =
    (w.logger.has_file ≡ true)
    × (w.logger.daysplit ≡ false)
    × (w.logger.log_max_size ≡ ℤ.pos m)
    × (w.disk.files (log_file w.logger) ≡ some s)

-- What a call leaves of a log that holds `s`: below its largest size `m` the log with one line more, at
-- that size an overrun.
abbrev pub Grows : World → ℕ → Bytes → Option (ℤ × World) → Type 0
Grows w m s o =
    ((length s < m)
      × (w' : World) × (line : Bytes) × (o ≡ some (ℤ.pos 0, w'))
      × (w'.logger ≡ w.logger)
      × (w'.disk.files (log_file w.logger) ≡ some (s ++ line))
      × ((p : Bytes) → p ≢ log_file w.logger → w'.disk.files p ≡ w.disk.files p)
      × (length line ≤ line_size))
    ⊎ ((m ≤ length s) × (o ≡ none))

module _ (env : Outside) (measured : (n : ℕ) (s : Bytes) → env.position n s ≡ ℤ.pos (length s))
    (dated : (n : ℕ) → length (env.date n) < 40) where
  abbrev next_call : World → World
  next_call w = record w { disk = record w.disk { calls = suc w.disk.calls } }
