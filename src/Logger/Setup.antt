-- ===== src/Logger/Setup.antt =====
-- `Logger::init` of logger/logger.cpp.
use tag_etl.Logger.LogFile.{open_log_file}
use tag_etl.Logger.LogLevel
use tag_etl.Logger.{Outside, Logger, World, bounded, max_log_size, max_path_len}
use tag_etl.Prelude.{
  ℕ, ◌+◌, ◌*◌, Bool, true, [], ◌∷◌, ◌++◌, map, Option, none, some, length, ltb, leb, ◌==◌, get_or,
  ◌&&◌, if◌then◌else◌, ◌>>=◌,
}
use tag_etl.Text.Number.{ℤ, pos, negsuc, ltb_ℤ}
use tag_etl.Text.{Bytes, codes, bytes_eq}

-- The arguments of `init`; a null pointer is `none`.
pub record Settings : Type 0 where
  pub level_name : Bytes
  pub name : Bytes
  pub path : Bytes
  pub mov : Bytes
  pub uid_str : Option Bytes
  pub gid_str : Option Bytes
  pub flush : Bool
  pub daysplit : Bool
  pub max_size : ℤ

unfoldable pub to_lower : ℕ → ℕ
to_lower c = if leb b'A' c && leb c b'Z' then c + 32 else c

-- strcasecmp(a, b) == 0
unfoldable pub same_letters : Bytes → Bytes → Bool
unfolding to_lower bytes_eq
same_letters a b = bytes_eq (map to_lower a) (map to_lower b)

-- The level that a name gives; another name leaves the level as it is.
unfoldable pub level_of : Bytes → ℕ → ℕ
unfolding same_letters
level_of s old =
    if same_letters s (codes "debug")
    then LogLevel.debug
    else if same_letters s (codes "info")
    then LogLevel.info
    else if same_letters s (codes "notice")
    then LogLevel.notice
    else if same_letters s (codes "warn")
    then LogLevel.warn
    else if same_letters s (codes "error")
    then LogLevel.err
    else if same_letters s (codes "err")
    then LogLevel.err
    else if same_letters s (codes "crit")
    then LogLevel.crit
    else if same_letters s (codes "fatal")
    then LogLevel.fatal
    else if same_letters s (codes "emerg")
    then LogLevel.emerg
    else old

-- The empty path is read in front of its first byte.
unfoldable pub end_path : Bytes → Option Bytes
end_path [] = none
end_path (c ∷ cs) =
    if get_or (c ∷ cs) (length cs) 0 == b'/'
    then some (c ∷ cs)
    else bounded max_path_len ((c ∷ cs) ++ (b'/' ∷ []))

-- strcpy, and the slash
unfoldable pub copied_path : Bytes → Option Bytes
copied_path s = bounded max_path_len s >>= end_path

-- The member that getpwnam or getgrnam gives, or else the process's own.
unfoldable pub chosen : (Bytes → Option ℕ) → ℕ → Option Bytes → ℕ
chosen known own none = own
chosen known own (some name) = elim (known name) [ none ↦ own | some n ↦ n ]

-- The first five tests.
unfoldable pub refused : Settings → Option ℤ
refused s =
    if ltb 10 (length s.level_name)
    then some (negsuc 0)
    else if ltb max_path_len (length s.name)
    then some (negsuc 1)
    else if ltb max_path_len (length s.path)
    then some (negsuc 2)
    else if ltb max_path_len (length s.mov)
    then some (negsuc 3)
    else if ltb_ℤ (pos (max_log_size * 100)) s.max_size
    then some (negsuc 4)
    else none

unfoldable pub finish_init : Settings → World → World
unfolding level_of
finish_init s w = record w {
  logger = record w.logger { log_level = level_of s.level_name w.logger.log_level; inited = true };
}

module _ (env : Outside) where
  -- The members that the arguments give.
  unfoldable pub set_members : Settings → Logger → Option Logger
  set_members s l = bounded max_path_len s.name >>= λ log_name. copied_path s.path >>= λ log_path.
      copied_path s.mov >>= λ mov_path. some (record l {
        flush = s.flush;
        daysplit = s.daysplit;
        log_max_size = s.max_size;
        log_name = log_name;
        log_path = log_path;
        mov_path = mov_path;
        uid = chosen env.user env.own_user s.uid_str;
        gid = chosen env.group env.own_group s.gid_str;
      })

  unfoldable pub init_members : Settings → World → Option (ℤ × World)
  init_members s w = set_members s w.logger >>= λ l.
      open_log_file env (record w { logger = l }) >>= λ r.
      if r.0 then some (pos 0, finish_init s r.1) else some (negsuc 5, r.1)

  unfoldable pub init : Settings → World → Option (ℤ × World)
  init s w =
      if w.logger.inited
      then some (pos 0, w)
      else elim (refused s) [ some code ↦ some (code, w) | none ↦ init_members s w ]
