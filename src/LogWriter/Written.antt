-- ===== src/LogWriter/Written.antt =====
-- What a sequence of calls of `CLogger` of utils/Logger.cpp leaves in the file.
use tag_etl.Codes.{s_ok}
use tag_etl.LogWriter.Stamp.{IsDate, NoZero, date_line, length-time_stamp, stamped-date_line}
use tag_etl.LogWriter.{LogWriter, local_time_size, open_log, stamped, time_stamp, write_log}
use tag_etl.Logger.LogFile.{contents}
use tag_etl.Logger.Moves.{bounded-some, bytes_eq-false, bytes_eq_refl}
use tag_etl.Logger.{Disk, Outside, appended, fopen_append, fwrite}
use tag_etl.Prelude.{
  ℕ, suc, ◌≡◌, ◌≢◌, refl, sym, ap, ◌∙◌, true, false, List, [], ◌∷◌, ◌++◌, Option, some, arith,
  ◌>>=◌,
}
use tag_etl.Profile.Lookup.{is_empty}
use tag_etl.Text.{Bytes}
use mathlib.Core.List.{append_assoc, append-nil}

module _ (env : Outside) where
  -- Each message is written, whatever the code of the one before.
  unfoldable pub write_logs : List Bytes → LogWriter → Option LogWriter
  write_logs [] l = some l
  write_logs (msg ∷ msgs) l = write_log env msg l >>= λ r. write_logs msgs r.1

  -- The lines of the messages, the first at the call of number `n`.
  abbrev pub lines : ℕ → List Bytes → Bytes
  lines n [] = []
  lines n (msg ∷ msgs) = date_line (env.now n) msg ++ lines (suc n) msgs

fopen_append-contents :
    (env : Outside) (path : Bytes) (d : Disk)
    → env.opens d.calls ≡ true
    → (fopen_append env path d).1.files path ≡ some (contents (d.files path))
fopen_append-contents env path d granted = ground (arith, bytes_eq_refl path)

fopen_append_other :
    (env : Outside) (path : Bytes) (d : Disk) (p : Bytes)
    → p ≢ path
    → (fopen_append env path d).1.files p ≡ d.files p
fopen_append_other env path d p h = ground (arith, bytes_eq-false p path h)

-- The messages are not empty and have no zero byte.
abbrev pub AllTexts : List Bytes → Type 0
AllTexts [] = Unit
AllTexts (msg ∷ msgs) = (is_empty msg ≡ false) × NoZero msg × AllTexts msgs

-- The log is open, and the file holds `s`.
abbrev IsOpen : LogWriter → Bytes → Type 0
IsOpen l s = (l.already_open_log ≡ true) × (l.has_file ≡ true) × (l.disk.files l.path ≡ some s)

-- The file of the log holds `s`, and every other file of `d` is as it was.
abbrev pub Holds : Disk → LogWriter → Bytes → Type 0
Holds d l s =
    (l.disk.files l.path ≡ some s) × ((p : Bytes) → p ≢ l.path → l.disk.files p ≡ d.files p)

module _ (env : Outside) (dated : (n : ℕ) → IsDate (env.now n)) where
  write_log-IsOpen :
      (msg s : Bytes) (l : LogWriter)
      → is_empty msg ≡ false
      → NoZero msg
      → IsOpen l s
      → (l' : LogWriter) × (write_log env msg l ≡ some (s_ok, l'))
        × (l'.path ≡ l.path)
        × IsOpen l' (s ++ date_line (env.now l.disk.calls) msg)
        × (l'.disk.calls ≡ suc l.disk.calls)
        × ((p : Bytes) → p ≢ l.path → l'.disk.files p ≡ l.disk.files p)
  unfolding write_log
  write_log-IsOpen msg s l given text is_open =
      let stamp = time_stamp (env.now l.disk.calls) in
      let fits =
        bounded-some local_time_size stamp
          (length-time_stamp (env.now l.disk.calls) (dated l.disk.calls)) in
      let same = stamped-date_line (env.now l.disk.calls) msg (dated l.disk.calls) text in
      let line = stamped stamp msg in
      let d = fwrite l.path line l.disk in
      (
        record l { disk = record d { calls = suc d.calls } },
        simp (given, is_open.0, is_open.1, fits) refl,
        refl,
        (
          is_open.0,
          is_open.1,
          rw (bytes_eq_refl l.path) (ap (appended line) is_open.2 ∙ ap (λ x. some (s ++ x)) same),
        ),
        refl,
        λ p h. rw (bytes_eq-false p l.path h) refl,
      )

  write_logs-Holds :
      (msgs : List Bytes) (s : Bytes) (l : LogWriter)
      → AllTexts msgs
      → IsOpen l s
      → (l' : LogWriter) × (write_logs env msgs l ≡ some l')
        × (l'.path ≡ l.path)
        × Holds l.disk l' (s ++ lines env l.disk.calls msgs)
  unfolding write_logs
  write_logs-Holds [] s l given is_open =
      (l, refl, refl, (is_open.2 ∙ ap some (sym (append-nil s)), λ p h. refl))
  write_logs-Holds (msg ∷ msgs) s l given is_open =
      let n = l.disk.calls in
      let line = date_line (env.now n) msg in
      let r = write_log-IsOpen msg s l given.0 given.1 is_open in
      let rest = write_logs-Holds msgs (s ++ line) r.0 given.2 r.3 in
      let same : rest.0.path ≡ l.path = rest.2 ∙ r.2 in
      (
        rest.0,
        rw r.1 rest.1,
        same,
        (
          rest.3.0
              ∙ ap some (
                  append_assoc s line (lines env r.0.disk.calls msgs)
                  ∙ ap (λ m. s ++ (line ++ lines env m msgs)) r.4),
          λ p h. rest.3.1 p h ∙ r.5 p (λ e. h (e ∙ sym same)),
        ),
      )

  -- After `OpenLog` of a path, on an object with no open log, and any messages that are not empty and
  -- have no zero byte, the file of the path holds what it held before, or nothing where there was none,
  -- and behind it a line `[year-month-day hour:minute:second]:message` for each message, in order,
  -- with the time of its call in two digits each and the year in four; every other file is as it was.
  -- fopen is granted, and the times are of the years 1900 to 9999.
  pub open_log-write_logs :
      (path : Bytes) (msgs : List Bytes) (l : LogWriter)
      → is_empty path ≡ false
      → l.already_open_log ≡ false
      → env.opens l.disk.calls ≡ true
      → AllTexts msgs
      → (l' : LogWriter) × ((open_log env path l).0 ≡ s_ok)
        × (write_logs env msgs (open_log env path l).1 ≡ some l')
        × (l'.path ≡ path)
        × Holds l.disk l' (contents (l.disk.files path) ++ lines env (suc l.disk.calls) msgs)
  unfolding open_log
  open_log-write_logs path msgs l named closed granted given =
      let l1 : LogWriter = record {
        already_open_log = true;
        has_file = true;
        path = path;
        disk = (fopen_append env path l.disk).1;
      } in
      let e : open_log env path l ≡ (s_ok, l1) = simp (named, closed, granted) refl in
      let r =
        write_logs-Holds msgs (contents (l.disk.files path)) l1 given
          (refl, refl, fopen_append-contents env path l.disk granted) in
      (
        r.0,
        ap (λ x. x.0) e,
        ap (λ x. write_logs env msgs x.1) e ∙ r.1,
        r.2,
        (r.3.0, λ p h. r.3.1 p h ∙ fopen_append_other env path l.disk p (λ e. h (e ∙ sym r.2))),
      )
