-- ===== src/Logger/LogFile.antt =====
-- `Logger::open_log_file` of logger/logger.cpp, with the two ways in which the log is split. A text that
-- does not fit its array with the closing 0 is `none`.
use tag_etl.Logger.{
  Tm, Outside, Disk, Logger, World, bounded, access, unlink, link, fopen_append, max_path_len,
}
use tag_etl.Prelude.{
  ℕ, zero, suc, ◌*◌, Bool, true, false, [], ◌∷◌, ◌++◌, Option, none, some, ltb, leb, not, ◌&&◌,
  if◌then◌else◌, ◌>>=◌,
}
use tag_etl.Text.Converter.{print_unsigned}
use tag_etl.Text.Number.{ltb_ℤ}
use tag_etl.Text.{Bytes}

-- log_filepath
abbrev pub log_file : Logger → Bytes
log_file l = l.log_path ++ l.log_name

-- the text in ext, and the size of that array
unfoldable pub ext_of : ℕ → Bytes
unfolding print_unsigned
ext_of i = b'.' ∷ print_unsigned i

abbrev pub ext_size : ℕ
ext_size = 3

-- big_filepath and little_filepath
unfoldable pub backup : Logger → ℕ → Bytes
unfolding ext_of
backup l i = l.mov_path ++ (l.log_name ++ ext_of i)

-- date_buf
unfoldable pub date_ext : Tm → Bytes
unfolding print_unsigned
date_ext t =
    b'.'
    ∷ (print_unsigned t.tm_year
        ++ (b'-' ∷ (print_unsigned t.tm_mon ++ (b'-' ∷ print_unsigned t.tm_mday))))

-- mov_filepath
unfoldable pub day_backup : Logger → Tm → Bytes
unfolding date_ext
day_backup l t = l.mov_path ++ (l.log_name ++ date_ext t)

abbrev pub contents : Option Bytes → Bytes
contents none = []
contents (some s) = s

abbrev pub is_early : Tm → Bool
is_early t = ltb t.tm_hour 23 && (ltb t.tm_min 59 && leb t.tm_sec 59)

module _ (env : Outside) where
  unfoldable pub keeps_file : World → Bool
  keeps_file w =
      if not w.logger.has_file
      then false
      else if w.logger.daysplit
      then is_early (env.now w.disk.calls)
      else ltb_ℤ (env.position w.disk.calls (contents (w.disk.files (log_file w.logger))))
          w.logger.log_max_size

  -- The file that has the name is removed, the other is linked to it and unlinked.
  unfoldable pub move_file : Bytes → Bytes → Disk → Disk
  move_file old new d =
      let d' = if access new d then unlink env new d else d in
      if access old d' then unlink env old (link env old new d') else d'

  -- One round of the loop, big being the backup of number i.
  unfoldable pub shift_backup : Logger → ℕ → Disk → Option Disk
  unfolding ext_of backup move_file
  shift_backup l i d = bounded ext_size (ext_of (suc i)) >>= λ big_ext.
      bounded (max_path_len * 2) (backup l (suc i)) >>= λ big.
      bounded ext_size (ext_of i) >>= λ little_ext.
      bounded (max_path_len * 2) (backup l i) >>= λ little. some (move_file little big d)

  -- The rounds from i = k + 1 down to i = 2.
  unfoldable pub shift_backups : Logger → ℕ → Disk → Option Disk
  unfolding shift_backup
  shift_backups l zero d = some d
  shift_backups l (suc k) d = shift_backup l (suc k) d >>= λ d'. shift_backups l k d'

  unfoldable pub split_by_size : Logger → Bytes → Disk → Option Disk
  unfolding ext_of backup shift_backups move_file
  split_by_size l path d = shift_backups l 9 d >>= λ d'. bounded ext_size (ext_of 1) >>= λ ext.
      bounded (max_path_len * 2) (backup l 1) >>= λ big. some (move_file path big d')

  -- The same with no test.
  unfoldable pub replace_file : Bytes → Bytes → Disk → Disk
  replace_file old new d = unlink env old (link env old new (unlink env new d))

  unfoldable pub split_by_day : Logger → Bytes → Tm → Disk → Option Disk
  unfolding date_ext day_backup replace_file
  split_by_day l path t d = bounded 30 (date_ext t) >>= λ date_buf.
      bounded (max_path_len * 2) (day_backup l t) >>= λ moved. some (replace_file path moved d)

  -- fopen and chown
  unfoldable pub reopen : Bytes → Logger → Disk → Bool × World
  reopen path l d =
      let r = fopen_append env path d in
      (
        r.0,
        record {
          logger = record l { has_file = r.0 };
          disk = record r.1 { owners = (path, (l.uid, l.gid)) ∷ r.1.owners };
        },
      )

  unfoldable pub open_log_file : World → Option (Bool × World)
  open_log_file w =
      let l = w.logger in
      let t = env.now w.disk.calls in
      let d = record w.disk { calls = suc w.disk.calls } in
      if keeps_file w
      then some (true, record w { disk = d })
      else bounded (max_path_len * 2) (log_file l) >>= λ path.
          if not l.has_file
          then some (reopen path l d)
          else (if l.daysplit then split_by_day l path t d else split_by_size l path d) >>= λ d'.
              some (reopen path l d')
