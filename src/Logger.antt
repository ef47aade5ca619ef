-- ===== src/Logger.antt =====
-- `Logger` of logger/logger.h and logger/logger.cpp: the members of the object, the files it works
-- on, and the calls of the system. What the system answers is the parameter `Outside`: an answer is a
-- function of the number of calls so far. The text that the C library formats is given. A run that
-- ends in `none` writes outside a buffer or waits for a lock that never comes.
pub mod LogLevel
pub mod LogFile
pub mod Setup
pub mod Lines
pub mod Moves
pub mod Overrun
pub mod DaySplit
pub mod Methods
pub mod Returns
pub mod Mutex
pub mod Levels
pub mod Growth
pub mod Start
use tag_etl.Logger.LogLevel
use tag_etl.Prelude.{
  ℕ, suc, ◌+◌, ◌≡◌, Bool, true, false, List, [], ◌∷◌, ◌++◌, Option, none, some, length, ltb, not,
  ◌&&◌, if◌then◌else◌,
}
use tag_etl.Text.Number.{ℤ, pos}
use tag_etl.Text.{Bytes, bytes_eq}

-- The parts of struct tm that the code reads.
pub record Tm : Type 0 where
  pub tm_sec : ℕ
  pub tm_min : ℕ
  pub tm_hour : ℕ
  pub tm_mday : ℕ
  pub tm_mon : ℕ
  pub tm_year : ℕ

-- localtime; strftime with the format of get_header_line; ftell for a file that holds the bytes;
-- whether link, unlink and fopen are granted; getpwnam, getgrnam, getuid, getgid.
pub record Outside : Type 0 where
  pub now : ℕ → Tm
  pub date : ℕ → Bytes
  pub position : ℕ → Bytes → ℤ
  pub links : ℕ → Bool
  pub unlinks : ℕ → Bool
  pub opens : ℕ → Bool
  pub user : Bytes → Option ℕ
  pub group : Bytes → Option ℕ
  pub own_user : ℕ
  pub own_group : ℕ

-- What each path holds, and the calls of chown, the last in front.
pub record Disk : Type 0 where
  pub files : Bytes → Option Bytes
  pub owners : List (Bytes × (ℕ × ℕ))
  pub calls : ℕ

-- `has_file` is whether log_file_ptr is not null, `locked` is log_mutex.
pub record Logger : Type 0 where
  pub has_file : Bool
  pub log_name : Bytes
  pub log_path : Bytes
  pub mov_path : Bytes
  pub locked : Bool
  pub flush : Bool
  pub daysplit : Bool
  pub inited : Bool
  pub log_level : ℕ
  pub log_max_size : ℤ
  pub gid : ℕ
  pub uid : ℕ

pub record World : Type 0 where
  pub logger : Logger
  pub disk : Disk

abbrev pub max_path_len : ℕ
max_path_len = 256

abbrev pub max_buffer_size : ℕ
max_buffer_size = 8192

abbrev pub max_log_size : ℕ
max_log_size = 10485760

-- A text and its closing 0 in a buffer of `size` bytes.
abbrev pub bounded : ℕ → Bytes → Option Bytes
bounded size s = if ltb (length s) size then some s else none

abbrev pub is_some : {A : Type 0} → Option A → Bool
is_some none = false
is_some (some a) = true

abbrev pub set_file : Bytes → Option Bytes → (Bytes → Option Bytes) → Bytes → Option Bytes
set_file path content files p = if bytes_eq p path then content else files p

-- The constructor leaves `daysplit` as it finds it.
unfoldable pub new_logger : Bool → Logger
new_logger unset = record {
  has_file = false;
  log_name = [];
  log_path = [];
  mov_path = [];
  locked = false;
  flush = false;
  daysplit = unset;
  inited = false;
  log_level = LogLevel.info;
  log_max_size = pos 0;
  gid = 0;
  uid = 0;
}

-- ~Logger
unfoldable pub delete_logger : Logger → Logger
delete_logger l = record l { has_file = false }

-- access(path, F_OK)
abbrev pub access : Bytes → Disk → Bool
access path d = is_some (d.files path)

module _ (env : Outside) where
  abbrev pub unlink : Bytes → Disk → Disk
  unlink path d = record d {
    files = if env.unlinks d.calls then set_file path none d.files else d.files;
    calls = suc d.calls;
  }

  -- link refuses a name that is taken.
  abbrev pub link : Bytes → Bytes → Disk → Disk
  link old new d = record d {
    files =
        if env.links d.calls && access old d && not (access new d)
        then set_file new (d.files old) d.files
        else d.files;
    calls = suc d.calls;
  }

  -- fopen(path, "a")
  abbrev pub fopen_append : Bytes → Disk → Bool × Disk
  fopen_append path d = (
    env.opens d.calls,
    record d {
      files =
          if env.opens d.calls && not (access path d)
          then set_file path (some []) d.files
          else d.files;
      calls = suc d.calls;
    },
  )

abbrev pub appended : Bytes → Option Bytes → Option Bytes
appended s none = none
appended s (some content) = some (content ++ s)

-- fwrite to a file opened for appending. A file that is unlinked has no path.
abbrev pub fwrite : Bytes → Bytes → Disk → Disk
fwrite path s d = record d { files = set_file path (appended s (d.files path)) d.files }
