-- ===== src/Logger/Methods.antt =====
-- The methods of `Logger` of logger/logger.cpp as one operation, and sequences of them.
use tag_etl.Logger.Lines.{crit, debug, emerg, error, fatal, info, log, notice, warn}
use tag_etl.Logger.LogLevel
use tag_etl.Logger.{Outside, World}
use tag_etl.Prelude.{ℕ, List, [], ◌∷◌, Option, some, ◌>>=◌}
use tag_etl.Text.Number.{ℤ, pos, negsuc}
use tag_etl.Text.{Bytes}

-- The methods named for a level.
pub data Named : Type 0 where
  at_debug at_info at_notice at_warn at_error at_crit at_fatal at_emerg : Named

abbrev pub level : Named → ℕ
level at_debug = LogLevel.debug
level at_info = LogLevel.info
level at_notice = LogLevel.notice
level at_warn = LogLevel.warn
level at_error = LogLevel.err
level at_crit = LogLevel.crit
level at_fatal = LogLevel.fatal
level at_emerg = LogLevel.emerg

-- What a method returns for a line below the threshold.
abbrev pub hidden : Named → ℤ
hidden at_error = negsuc 1
hidden m = pos 1

pub data Op : Type 0 where
  by_name : Named → Op
  by_level : ℤ → Op

module _ (env : Outside) where
  unfoldable pub call : Named → Bytes → World → Option (ℤ × World)
  call at_debug = debug env
  call at_info = info env
  call at_notice = notice env
  call at_warn = warn env
  call at_error = error env
  call at_crit = crit env
  call at_fatal = fatal env
  call at_emerg = emerg env

  unfoldable pub run : Op → Bytes → World → Option (ℤ × World)
  run (by_name m) = call m
  run (by_level n) = log env n

  unfoldable pub run_all : List (Op × Bytes) → World → Option World
  run_all [] w = some w
  run_all ((op, text) ∷ ops) w = run op text w >>= λ r. run_all ops r.1
