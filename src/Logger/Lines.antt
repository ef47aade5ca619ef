-- ===== src/Logger/Lines.antt =====
-- The methods of `Logger` that write a line: `log` and one for each level. Each holds `log_mutex` while
-- it runs. Nothing that `open_log_file` calls throws, so the handlers around it, which return -4 by way
-- of `op_error_of_what`, are never entered.
use tag_etl.Logger.LogFile.{log_file, open_log_file}
use tag_etl.Logger.LogLevel
use tag_etl.Logger.{Outside, Disk, World, fopen_append, fwrite, max_buffer_size, max_path_len}
use tag_etl.Prelude.{
  ℕ, suc, ◌-◌, Bool, true, false, [], ◌∷◌, ◌++◌, Option, none, some, ltb, ◌==◌, ◌||◌, not, take,
  if◌then◌else◌, ◌>>=◌,
}
use tag_etl.Profile.Load.{c_string}
use tag_etl.Text.Number.{ℤ, pos, negsuc, ltb_ℤ}
use tag_etl.Text.{Bytes, codes}

-- pthread_mutex_lock, and the unlock of the scope's end. The mutex is not recursive.
unfoldable pub scoped : {A : Type 0} → World → (World → Option (A × World)) → Option (A × World)
scoped w k =
    if w.logger.locked
    then none
    else k (record w { logger = record w.logger { locked = true } }) >>= λ r.
        some (r.0, record r.1 { logger = record r.1.logger { locked = false } })

unfoldable pub level_tag : ℕ → Bytes
level_tag n =
    if n == LogLevel.debug
    then codes " [DEBUG]"
    else if n == LogLevel.info
    then codes " [INFO]"
    else if n == LogLevel.notice
    then codes " [NOTICE]"
    else if n == LogLevel.warn
    then codes " [WARN]"
    else if n == LogLevel.err
    then codes " [ERROR]"
    else if n == LogLevel.crit
    then codes " [CRIT]"
    else if n == LogLevel.fatal
    then codes " [FATAL]"
    else if n == LogLevel.emerg
    then codes " [EMERG]"
    else []

-- vsnprintf(buffer, size, ...) of a text that would be `text` in full
unfoldable pub format : ℕ → Bytes → Bytes
unfolding c_string
format size text = c_string (take (size - 1) text)

module _ (env : Outside) where
  unfoldable pub get_header_line : ℕ → Disk → Bytes
  unfolding level_tag
  get_header_line n d = env.date d.calls ++ (level_tag n ++ (9 ∷ []))

  -- The line and its end.
  unfoldable pub line_of : ℕ → Bytes → Disk → Bytes
  unfolding get_header_line format
  line_of n text d = get_header_line n d ++ (format max_buffer_size text ++ (10 ∷ []))

  unfoldable pub put_line : ℕ → Bytes → World → World
  unfolding line_of
  put_line n text w =
      let d = fwrite (log_file w.logger) (line_of n text w.disk) w.disk in
      record w { disk = record d { calls = suc d.calls } }

  unfoldable pub write_line : ℕ → Bytes → World → Option (ℤ × World)
  write_line n text w = open_log_file env w >>= λ r.
      if r.0 then some (pos 0, put_line n text r.1) else some (negsuc 2, r.1)

  -- A method for the level `n`, which returns `hidden` where the threshold is above.
  unfoldable pub leveled : ℕ → ℤ → Bytes → World → Option (ℤ × World)
  leveled n hidden text w = scoped w λ w'.
      if not w'.logger.inited
      then some (negsuc 0, w')
      else if ltb n w'.logger.log_level
      then some (hidden, w')
      else write_line n text w'

  unfoldable pub error : Bytes → World → Option (ℤ × World)
  error text w = leveled LogLevel.err (negsuc 1) text w

  unfoldable pub info : Bytes → World → Option (ℤ × World)
  info text w = leveled LogLevel.info (pos 1) text w

  unfoldable pub debug : Bytes → World → Option (ℤ × World)
  debug text w = leveled LogLevel.debug (pos 1) text w

  unfoldable pub fatal : Bytes → World → Option (ℤ × World)
  fatal text w = leveled LogLevel.fatal (pos 1) text w

  unfoldable pub emerg : Bytes → World → Option (ℤ × World)
  emerg text w = leveled LogLevel.emerg (pos 1) text w

  unfoldable pub crit : Bytes → World → Option (ℤ × World)
  crit text w = leveled LogLevel.crit (pos 1) text w

  unfoldable pub warn : Bytes → World → Option (ℤ × World)
  warn text w = leveled LogLevel.warn (pos 1) text w

  unfoldable pub notice : Bytes → World → Option (ℤ × World)
  notice text w = leveled LogLevel.notice (pos 1) text w

  -- The level of `log` is an int.
  unfoldable pub log : ℤ → Bytes → World → Option (ℤ × World)
  log n text w = scoped w λ w'.
      if not w'.logger.inited
      then some (negsuc 0, w')
      else if ltb_ℤ n (pos w'.logger.log_level) || ltb_ℤ (pos LogLevel.emerg) n
      then some (negsuc 1, w')
      else if ltb_ℤ (pos w'.logger.log_level) n
      then some (pos 1, w')
      else write_line w'.logger.log_level text w'

  -- The file error_log of log_path.
  unfoldable pub op_error_of_what : Bytes → World → Option (Bool × World)
  unfolding scoped format
  op_error_of_what text w = scoped w λ w'.
      let path = w'.logger.log_path ++ codes "error_log" in
      let r = fopen_append env path w'.disk in
      some (
        r.0,
        record w' {
          disk = if r.0 then fwrite path (format max_path_len text ++ (10 ∷ [])) r.1 else r.1;
        },
      )
