-- ===== src/Tests/Logs.antt =====
-- The theorems on numbers and on the logger at concrete inputs.
use tag_etl.Logger.Overrun.{is_full, open_log_file-none_iff}
use tag_etl.Logger.DaySplit.{FitsDay, open_log_file-day}
use tag_etl.Logger.Levels.{log-threshold}
use tag_etl.Logger.Lines.{log}
use tag_etl.Logger.LogFile.{date_ext, day_backup, log_file, open_log_file}
use tag_etl.Logger.Methods.{at_error, by_level, by_name, run_all}
use tag_etl.Logger.Mutex.{run_all-returns, with_file}
use tag_etl.Logger.Returns.{FitsBuffers}
use tag_etl.Logger.Setup.{Settings, init, level_of, refused}
use tag_etl.Logger.Start.Members.{ends_with_slash, fits_settings}
use tag_etl.Logger.Start.{IsFresh, init-none_iff, init-starts}
use tag_etl.Logger.{Logger, Outside, Tm, World, access, new_logger}
use tag_etl.Prelude.{
  ◌≡◌, ◌≢◌, ◌↔◌, inl, refl, Bool, true, false, [], ◌∷◌, none, some, length, arith, if◌then◌else◌,
}
use tag_etl.Text.Converter.ReadBack.{atoi-uint2string}
use tag_etl.Text.Converter.{uint2string, print_unsigned}
use tag_etl.Text.Number.{pos, atoi}
use tag_etl.Text.{Bytes, bytes_eq, codes}

atoi-uint2string_example : atoi (uint2string 2008) ≡ pos 2008
atoi-uint2string_example = atoi-uint2string 2008 (omega arith)

-- 7 January 2024, 23:10
abbrev evening : Tm
evening = record { tm_sec = 0; tm_min = 10; tm_hour = 23; tm_mday = 7; tm_mon = 0; tm_year = 124 }

-- A system that grants everything, link as told.
abbrev machine : Bool → Outside
machine linked = record {
  now = λ n. evening;
  date = λ n. codes "2024-01-07 23:10:00 ";
  position = λ n s. pos (length s);
  links = λ n. linked;
  unlinks = λ n. true;
  opens = λ n. true;
  user = λ s. none;
  group = λ s. none;
  own_user = 0;
  own_group = 0;
}

abbrev open_logger : Logger
open_logger = record {
  has_file = true;
  log_name = codes "a.log";
  log_path = codes "./";
  mov_path = codes "./";
  locked = false;
  flush = false;
  daysplit = false;
  inited = true;
  log_level = 2;
  log_max_size = pos 3;
  gid = 0;
  uid = 0;
}

-- A log of five bytes.
abbrev full_world : World
full_world = record {
  logger = open_logger;
  disk = record {
    files = λ p. if bytes_eq p (codes "./a.log") then some (codes "hello") else none;
    owners = [];
    calls = 0;
  };
}

abbrev daily_world : World
daily_world = record full_world { logger = record open_logger { daysplit = true } }

fits_day : FitsDay open_logger evening
unfolding date_ext day_backup print_unsigned
fits_day = (omega arith, omega arith, omega arith, λ e. cc)

-- The log of five bytes is beyond its three.
open_log_file-none_iff_example :
    (open_log_file (machine true) full_world ≡ none) ↔ (is_full (machine true) full_world ≡ true)
open_log_file-none_iff_example =
    open_log_file-none_iff (machine true) full_world (omega arith, λ n. (fits_day.0, fits_day.1))

open_log_file-day_example :
    (w' : World) × (open_log_file (machine true) daily_world ≡ some (true, w'))
    × (w'.disk.files (day_backup open_logger evening) ≡ some (codes "hello"))
    × (w'.disk.files (codes "./a.log") ≡ some [])
    × ((p : Bytes)
        → p ≢ codes "./a.log"
        → p ≢ day_backup open_logger evening
        → w'.disk.files p ≡ daily_world.disk.files p)
unfolding day_backup bytes_eq
open_log_file-day_example =
    open_log_file-day (machine true) (λ n. refl) (λ n. refl) (λ n. refl) daily_world
      (refl, refl, refl) fits_day

fits_buffers : FitsBuffers (machine false) daily_world.logger
unfolding day_backup
fits_buffers = ((omega arith, λ n. (fits_day.0, fits_day.1)), inl refl)

run_all-returns_example :
    (w' : World) × (run_all
        (machine false)
        ((by_name at_error, codes "x") ∷ (by_level (pos 2), codes "y") ∷ [])
        daily_world
      ≡ some w')
    × (w'.logger.locked ≡ false)
    × (w'.logger ≡ with_file daily_world.logger w'.logger.has_file)
run_all-returns_example =
    run_all-returns (machine false)
      ((by_name at_error, codes "x") ∷ (by_level (pos 2), codes "y") ∷ []) daily_world fits_buffers
      refl

log-threshold_example :
    log (machine true) (pos 16) (codes "x") full_world ≡ some (pos 1, full_world)
log-threshold_example = log-threshold (machine true) (codes "x") full_world refl refl at_error

-- The same log with room for one line more.
abbrev roomy_world : World
roomy_world = record full_world { logger = record open_logger { log_max_size = pos 6 } }

abbrev settings : Settings
settings = record {
  level_name = codes "Warn";
  name = codes "b.log";
  path = codes "logs";
  mov = codes "old/";
  uid_str = none;
  gid_str = some (codes "adm");
  flush = true;
  daysplit = false;
  max_size = pos 1000;
}

abbrev new_world : World
new_world = record { logger = new_logger true; disk = full_world.disk }

fresh : IsFresh settings new_world
unfolding new_logger refused
fresh = (refl, refl, refl)

init-none_iff_example :
    (init (machine true) settings new_world ≡ none) ↔ (fits_settings settings ≡ false)
init-none_iff_example = init-none_iff (machine true) settings new_world fresh

init-starts_example :
    (w' : World) × (init (machine true) settings new_world ≡ some (pos 0, w'))
    × (w'.logger.inited ≡ true)
    × (w'.logger.has_file ≡ true)
    × (ends_with_slash w'.logger.log_path ≡ true)
    × (w'.logger.log_name ≡ codes "b.log")
    × (w'.logger.log_level ≡ 8)
    × (access (log_file w'.logger) w'.disk ≡ true)
    × ((s' : Settings) → init (machine true) s' w' ≡ some (pos 0, w'))
unfolding level_of new_logger
init-starts_example = init-starts (machine true) settings new_world fresh refl refl
