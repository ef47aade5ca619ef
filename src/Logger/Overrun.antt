-- ===== src/Logger/Overrun.antt =====
-- Where `open_log_file` of logger/logger.cpp writes behind one of its arrays.
use tag_etl.Logger.LogFile.{
  contents, date_ext, day_backup, ext_of, keeps_file, log_file, open_log_file, reopen, shift_backup,
  shift_backups, split_by_day, replace_file, split_by_size,
}
use tag_etl.Logger.Moves.{bounded-some}
use tag_etl.Logger.{Outside, Disk, Logger, World, bounded, max_path_len}
use tag_etl.Prelude.{
  ℕ, suc, ◌*◌, ◌<◌, ◌≡◌, ◌↔◌, refl, Bool, true, false, none, some, length, arith, Bool-cases,
  Option-cases, inl, inr, not, ◌&&◌,
}
use tag_etl.Text.Converter.{print_unsigned}
use tag_etl.Text.Number.{ltb_ℤ}
use tag_etl.Text.{Bytes}

-- The path of the log fits its buffer, and the names of its days theirs.
abbrev pub FitsNames : Outside → Logger → Type 0
FitsNames env l =
    (length (log_file l) < max_path_len * 2)
    × ((n : ℕ)
        → (length (date_ext (env.now n)) < 30)
          × (length (day_backup l (env.now n)) < max_path_len * 2))

-- The log is open, is split by its size, and ftell tells its largest size or more.
abbrev pub is_full : Outside → World → Bool
is_full env w =
    w.logger.has_file
    && (not w.logger.daysplit
        && not (
            ltb_ℤ (env.position w.disk.calls (contents (w.disk.files (log_file w.logger))))
              w.logger.log_max_size))

-- The first round of the loop writes ".10" into ext.
pub split_by_size-none :
    (env : Outside) (l : Logger) (path : Bytes) (d : Disk) → split_by_size env l path d ≡ none
unfolding split_by_size shift_backups shift_backup ext_of print_unsigned
split_by_size-none env l path d = refl

pub split_by_day-some :
    (env : Outside) (l : Logger) (n : ℕ) (d : Disk)
    → FitsNames env l
    → (d' : Disk) × (split_by_day env l (log_file l) (env.now n) d ≡ some d')
unfolding split_by_day
split_by_day-some env l n d fits = (
  replace_file env (log_file l) (day_backup l (env.now n)) d,
  simp
      (
        bounded-some 30 (date_ext (env.now n)) (fits.1 n).0,
        bounded-some (max_path_len * 2) (day_backup l (env.now n)) (fits.1 n).1,
      )
      refl,
)

reopen-logger :
    (env : Outside) (l : Logger) (d : Disk)
    → (reopen env (log_file l) l d).1.logger
      ≡ record l { has_file = (reopen env (log_file l) l d).1.logger.has_file }
unfolding reopen
reopen-logger env l d = refl

keeps_file_spare :
    (env : Outside) (w : World)
    → is_full env w ≡ false
    → w.logger.has_file ≡ true
    → w.logger.daysplit ≡ false
    → keeps_file env w ≡ true
unfolding keeps_file
keeps_file_spare env w spare present size = ground arith

-- Of the object only whether the file is open may differ.
pub open_log_file-cases :
    (env : Outside) (w : World)
    → FitsNames env w.logger
    → is_full env w ≡ false
    → (r : Bool × World) × (open_log_file env w ≡ some r)
      × (r.1.logger ≡ record w.logger { has_file = r.1.logger.has_file })
unfolding open_log_file
open_log_file-cases env w fits spare =
    let l = w.logger in
    let d : Disk = record w.disk { calls = suc w.disk.calls } in
    let short = bounded-some (max_path_len * 2) (log_file l) fits.0 in
    elim (Bool-cases (keeps_file env w)) [
      | inl kept ↦ ((true, record w { disk = d }), simp kept refl, refl)
      | inr kept ↦ elim (Bool-cases l.has_file) [
        | inr absent ↦
            (reopen env (log_file l) l d, simp (kept, short, absent) refl, reopen-logger env l d)
        | inl present ↦ elim (Bool-cases l.daysplit) [
          | inl days ↦
              let r = split_by_day-some env l w.disk.calls d fits in
              (
                reopen env (log_file l) l r.0,
                simp (kept, short, present, days, r.1) refl,
                reopen-logger env l r.0,
              )
          | inr size ↦ absurd (ground (arith, kept, keeps_file_spare env w spare present size))
        ]
      ]
    ]

pub open_log_file-full :
    (env : Outside) (w : World) → is_full env w ≡ true → open_log_file env w ≡ none
unfolding open_log_file keeps_file
open_log_file-full env w full =
    let l = w.logger in
    let d : Disk = record w.disk { calls = suc w.disk.calls } in
    let present : l.has_file ≡ true = ground arith in
    let size : l.daysplit ≡ false = ground arith in
    let above : ltb_ℤ (env.position w.disk.calls (contents (w.disk.files (log_file l))))
          l.log_max_size
        ≡ false =
      ground arith in
    elim (Option-cases (bounded (max_path_len * 2) (log_file l))) [
      | inl long ↦ simp (present, size, above, long) refl
      | inr (path, e) ↦ simp (present, size, above, e, split_by_size-none env l path d) refl
    ]

-- Where the path of the log and the names of its days fit their buffers, `open_log_file` writes behind
-- an array exactly if the log is open, is split by its size and has reached its largest size:
-- that is, no split by size is ever made.
pub open_log_file-none_iff :
    (env : Outside) (w : World)
    → FitsNames env w.logger
    → (open_log_file env w ≡ none) ↔ (is_full env w ≡ true)
open_log_file-none_iff env w fits = elim (Bool-cases (is_full env w)) [
  | inl full ↦ (λ h. full, λ h. open_log_file-full env w full)
  | inr spare ↦ let r = open_log_file-cases env w fits spare in (λ h. cc, λ h. cc)
]
