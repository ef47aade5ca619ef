-- ===== src/Logger/LogLevel.antt =====
-- The namespace LOG_LEVEL of logger/logger.h.
use tag_etl.Prelude.{ℕ}

abbrev pub debug : ℕ
debug = 1

abbrev pub info : ℕ
info = 2

abbrev pub notice : ℕ
notice = 4

abbrev pub warn : ℕ
warn = 8

abbrev pub err : ℕ
err = 16

abbrev pub crit : ℕ
crit = 32

abbrev pub fatal : ℕ
fatal = 64

abbrev pub emerg : ℕ
emerg = 128
