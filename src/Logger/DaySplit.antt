-- ===== src/Logger/DaySplit.antt =====
-- The split of the log by days in `open_log_file` of logger/logger.cpp.
use mathlib.Core.Path.{fun_ext}
use tag_etl.Logger.LogFile.{
  date_ext, day_backup, is_early, keeps_file, log_file, open_log_file, reopen, replace_file,
  split_by_day,
}
use tag_etl.Logger.Moves.{bounded-some, bytes_eq-false, bytes_eq_refl, moved, reopen-fresh}
use tag_etl.Logger.{Outside, Disk, Logger, Tm, World, bounded, max_path_len, set_file}
use tag_etl.Prelude.{
  ℕ, suc, ◌*◌, ◌<◌, ◌≡◌, ◌≢◌, refl, sym, ap, ◌∙◌, true, false, [], none, some, length, arith,
}
use tag_etl.Text.{Bytes, bytes_eq_iff}

-- The texts of the day and of both paths fit their buffers, and the paths are two.
abbrev pub FitsDay : Logger → Tm → Type 0
FitsDay l t =
    (length (date_ext t) < 30)
    × (length (day_backup l t) < max_path_len * 2)
    × (length (log_file l) < max_path_len * 2)
    × (log_file l ≢ day_backup l t)

-- In the evening, or at the end of an hour.
abbrev pub IsLate : Outside → World → Type 0
IsLate env w =
    (w.logger.has_file ≡ true)
    × (w.logger.daysplit ≡ true)
    × (is_early (env.now w.disk.calls) ≡ false)

module _ (env : Outside) (unlinked : (n : ℕ) → env.unlinks n ≡ true)
    (linked : (n : ℕ) → env.links n ≡ true) (opened : (n : ℕ) → env.opens n ≡ true) where
  replace_file-moved :
      (old new : Bytes) (d : Disk)
      → old ≢ new
      → (replace_file env old new d).files ≡ moved true old new d.files
  unfolding replace_file
  replace_file-moved old new d h = fun_ext λ p. ground (
    arith,
    bytes_eq_iff p new,
    bytes_eq_iff p old,
    bytes_eq_refl new,
    bytes_eq-false old new h,
    unlinked d.calls,
    unlinked (suc (suc d.calls)),
    linked (suc d.calls),
  )

  split_by_day-moved :
      (l : Logger) (t : Tm) (d : Disk)
      → FitsDay l t
      → (d' : Disk) × (split_by_day env l (log_file l) t d ≡ some d')
        × (d'.files ≡ moved true (log_file l) (day_backup l t) d.files)
  unfolding split_by_day
  split_by_day-moved l t d fits =
      let name : bounded 30 (date_ext t) ≡ some (date_ext t) =
        bounded-some 30 (date_ext t) fits.0 in
      let path : bounded (max_path_len * 2) (day_backup l t) ≡ some (day_backup l t) =
        bounded-some (max_path_len * 2) (day_backup l t) fits.1 in
      (
        replace_file env (log_file l) (day_backup l t) d,
        simp (name, path) refl,
        replace_file-moved (log_file l) (day_backup l t) d fits.3,
      )

  open_log_file-by_day :
      (w : World) (d' : Disk)
      → IsLate env w
      → FitsDay w.logger (env.now w.disk.calls)
      → split_by_day env w.logger
          (log_file w.logger)
          (env.now w.disk.calls)
          (record w.disk { calls = suc w.disk.calls })
        ≡ some d'
      → open_log_file env w ≡ some (reopen env (log_file w.logger) w.logger d')
  unfolding open_log_file keeps_file
  open_log_file-by_day w d' late fits e =
      let short : bounded (max_path_len * 2) (log_file w.logger) ≡ some (log_file w.logger) =
        bounded-some (max_path_len * 2) (log_file w.logger) fits.2 in
      simp (late.0, late.1, late.2, short, e) refl

  day_split :
      (w : World)
      → IsLate env w
      → FitsDay w.logger (env.now w.disk.calls)
      → (w' : World) × (open_log_file env w ≡ some (true, w'))
        × (w'.logger ≡ w.logger)
        × (w'.disk.files
            ≡ set_file (log_file w.logger) (some []) (
                moved true
                  (log_file w.logger)
                  (day_backup w.logger (env.now w.disk.calls))
                  w.disk.files))
  day_split w late fits =
      let l = w.logger in
      let path = log_file l in
      let t = env.now w.disk.calls in
      let r = split_by_day-moved l t (record w.disk { calls = suc w.disk.calls }) fits in
      let gone : r.0.files path ≡ none =
        rw (r.2, bytes_eq-false path (day_backup l t) fits.3, bytes_eq_refl path) refl in
      let fresh = reopen-fresh env opened path l r.0 gone late.0 in
      (
        (reopen env path l r.0).1,
        open_log_file-by_day w r.0 late fits r.1
            ∙ ap (λ x. some (x, (reopen env path l r.0).1)) fresh.0,
        fresh.1,
        fresh.2 ∙ ap (set_file path (some [])) r.2,
      )

  -- Where the system grants every call and the names fit, the log is split by days and is open, and
  -- it is 23 o'clock or the last minute of an hour: `open_log_file` moves the log to the file of the
  -- day, whatever that held, and leaves an empty log and the other files as they are.
  pub open_log_file-day :
      (w : World)
      → IsLate env w
      → FitsDay w.logger (env.now w.disk.calls)
      → (w' : World) × (open_log_file env w ≡ some (true, w'))
        × (w'.disk.files (day_backup w.logger (env.now w.disk.calls))
            ≡ w.disk.files (log_file w.logger))
        × (w'.disk.files (log_file w.logger) ≡ some [])
        × ((p : Bytes)
            → p ≢ log_file w.logger
            → p ≢ day_backup w.logger (env.now w.disk.calls)
            → w'.disk.files p ≡ w.disk.files p)
  open_log_file-day w late fits =
      let l = w.logger in
      let path = log_file l in
      let day = day_backup l (env.now w.disk.calls) in
      let r = day_split w late fits in
      let apart : day ≢ path = λ e. fits.3 (sym e) in
      (
        r.0,
        r.1,
        ap (λ f. f day) r.3 ∙ rw (bytes_eq-false day path apart, bytes_eq_refl day) refl,
        ap (λ f. f path) r.3 ∙ rw (bytes_eq_refl path) refl,
        λ p h k. ap (λ f. f p) r.3 ∙ rw (bytes_eq-false p path h, bytes_eq-false p day k) refl,
      )
