-- ===== src/LogWriter.antt =====
-- `CLogger` of utils/Logger.cpp: a log file that is opened once and written line by line, on the files
-- and with the system of the module Logger.
pub mod Stamp
pub mod Written
use tag_etl.Codes.{s_ok, error_invalid_parameter, error_log_not_open, error_open_files}
use tag_etl.Logger.{Disk, Outside, Tm, bounded, fopen_append, fwrite}
use tag_etl.Prelude.{
  ℕ, zero, suc, ◌+◌, ◌-◌, Bool, true, false, List, [], ◌∷◌, ◌++◌, Option, none, some, length, not,
  ◌||◌, if◌then◌else◌, ◌>>=◌,
}
use tag_etl.Profile.Load.{c_string}
use tag_etl.Profile.Lookup.{is_empty}
use tag_etl.Text.Converter.{print_unsigned}
use tag_etl.Text.{Bytes, codes}

-- `path` is that of the file behind m_pfpLogfile, `has_file` whether the pointer is not null.
pub record LogWriter : Type 0 where
  pub already_open_log : Bool
  pub has_file : Bool
  pub path : Bytes
  pub disk : Disk

abbrev pub local_time_size : ℕ
local_time_size = 32

unfoldable pub new_log_writer : Disk → LogWriter
new_log_writer d = record { already_open_log = false; has_file = false; path = []; disk = d }

abbrev zeros : ℕ → Bytes
zeros zero = []
zeros (suc n) = b'0' ∷ zeros n

-- %04d and %02d of a number that is not negative
unfoldable pub print_padded : ℕ → ℕ → Bytes
print_padded width n = zeros (width - length (print_unsigned n)) ++ print_unsigned n

-- pCurrTime
unfoldable pub time_stamp : Tm → Bytes
unfolding print_padded
time_stamp t =
    b'['
    ∷ (print_padded 4 (t.tm_year + 1900)
        ++ (b'-'
            ∷ (print_padded 2 (t.tm_mon + 1)
                ++ (b'-'
                    ∷ (print_padded 2 t.tm_mday
                        ++ (b' '
                            ∷ (print_padded 2 t.tm_hour
                                ++ (b':'
                                    ∷ (print_padded 2 t.tm_min
                                        ++ (b':' ∷ (print_padded 2 t.tm_sec ++ codes "]:")))))))))))

-- strtLogMsg as fputs writes it
unfoldable pub stamped : Bytes → Bytes → Bytes
stamped stamp msg = c_string (stamp ++ (msg ++ (10 ∷ [])))

module _ (env : Outside) where
  -- "a+" makes the file where there is none.
  unfoldable pub open_log : Bytes → LogWriter → ℕ × LogWriter
  open_log path l =
      let r = fopen_append env path l.disk in
      if is_empty path
      then (error_invalid_parameter, l)
      else if l.already_open_log
      then (s_ok, l)
      else if r.0
      then (s_ok, record { already_open_log = true; has_file = true; path = path; disk = r.1 })
      else (error_open_files, record l { has_file = false; disk = r.1 })

  -- The code and the object; `none` where the time does not fit its buffer.
  unfoldable pub write_log : Bytes → LogWriter → Option (ℕ × LogWriter)
  write_log msg l =
      if is_empty msg
      then some (error_invalid_parameter, l)
      else if not l.already_open_log || not l.has_file
      then some (error_log_not_open, l)
      else bounded local_time_size (time_stamp (env.now l.disk.calls)) >>= λ stamp.
          let d = fwrite l.path (stamped stamp msg) l.disk in
          some (s_ok, record l { disk = record d { calls = suc d.calls } })

unfoldable pub close_log : LogWriter → LogWriter
close_log l = record l { has_file = false; already_open_log = false }
