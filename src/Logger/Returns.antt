-- ===== src/Logger/Returns.antt =====
-- Returns of the methods of `Logger`, and their mutex.
use tag_etl.Logger.Overrun.{FitsNames, is_full, open_log_file-cases}
use tag_etl.Logger.Lines.{
  crit, debug, emerg, error, fatal, info, leveled, log, notice, scoped, warn, write_line, put_line,
}
use tag_etl.Logger.LogFile.{contents, day_backup, log_file, open_log_file}
use tag_etl.Logger.LogLevel
use tag_etl.Logger.Methods.{Named, at_debug, Op, by_level, by_name, call, run, level, hidden}
use tag_etl.Logger.{Outside, Logger, World}
use tag_etl.Prelude.{
  ℕ, ◌≡◌, ◌⊎◌, inl, inr, refl, sym, ap, ◌∙◌, Bool, true, false, Option, none, some, ltb, arith,
  if◌then◌else◌, ◌>>=◌, not, ◌||◌,
}
use tag_etl.Text.Number.{ℤ, pos, negsuc, ltb_ℤ}
use tag_etl.Text.{Bytes}

-- The names fit their buffers, and the log is split by days or never reaches its largest size.
abbrev pub FitsBuffers : Outside → Logger → Type 0
FitsBuffers env l =
    FitsNames env l
    × ((l.daysplit ≡ true) ⊎ ((n : ℕ) (s : Bytes) → ltb_ℤ (env.position n s) l.log_max_size ≡ true))

-- The run returns, and only whether the file is open may have changed in the object.
abbrev pub Keeps : {A : Type 0} → Logger → Option (A × World) → Type 0
Keeps l none = ⊥
Keeps l (some r) = r.1.logger ≡ record l { has_file = r.1.logger.has_file }

FitsBuffers-spare : (env : Outside) (w : World) → FitsBuffers env w.logger → is_full env w ≡ false
FitsBuffers-spare env w (names, inl days) = ground (arith, days)
FitsBuffers-spare env w (names, inr below) =
    ground (arith, below w.disk.calls (contents (w.disk.files (log_file w.logger))))

if_Keeps :
    {A : Type 0} (b : Bool) (l : Logger) (x y : Option (A × World))
    → Keeps l x
    → Keeps l y
    → Keeps l (if b then x else y)
if_Keeps true l x y h k = h
if_Keeps false l x y h k = k

open_log_file-Keeps :
    (env : Outside) (w : World) → FitsBuffers env w.logger → Keeps w.logger (open_log_file env w)
open_log_file-Keeps env w fits =
    let r = open_log_file-cases env w fits.0 (FitsBuffers-spare env w fits) in rw r.1 r.2

write_line-Keeps :
    (env : Outside) (n : ℕ) (text : Bytes) (w : World)
    → FitsBuffers env w.logger
    → Keeps w.logger (write_line env n text w)
unfolding write_line put_line
write_line-Keeps env n text w fits = written (open_log_file env w) (open_log_file-Keeps env w fits)
  where
    written :
        (o : Option (Bool × World))
        → Keeps w.logger o
        → Keeps w.logger
            (o >>= λ r. if r.0 then some (pos 0, put_line env n text r.1) else some (negsuc 2, r.1))
    written none h = h
    written (some (true, w')) h = h
    written (some (false, w')) h = h

abbrev unlock : {A : Type 0} → A × World → Option (A × World)
unlock r = some (r.0, record r.1 { logger = record r.1.logger { locked = false } })

abbrev pub unlocked_logger : Logger → Logger
unlocked_logger l = record l { locked = false }

unlock-Keeps :
    {A : Type 0} (l : Logger) (o : Option (A × World))
    → l.locked ≡ false
    → Keeps (record l { locked = true }) o
    → Keeps l (o >>= unlock)
unlock-Keeps l none h e = e
unlock-Keeps l (some r) h e =
    ap unlocked_logger e ∙ λ i. record l { locked = sym h i; has_file = r.1.logger.has_file }

-- The mutex is taken and given back around what keeps the object.
scoped-Keeps :
    {A : Type 0} (w : World) (k : World → Option (A × World))
    → w.logger.locked ≡ false
    → Keeps
        (record w.logger { locked = true })
        (k (record w { logger = record w.logger { locked = true } }))
    → Keeps w.logger (scoped w k)
unfolding scoped
scoped-Keeps w k h keeps =
    let w' : World = record w { logger = record w.logger { locked = true } } in
    let e : scoped w k ≡ (k w' >>= unlock) = simp h refl in
    rw e (unlock-Keeps w.logger (k w') h keeps)

leveled-Keeps :
    (env : Outside) (n : ℕ) (code : ℤ) (text : Bytes) (w : World)
    → FitsBuffers env w.logger
    → w.logger.locked ≡ false
    → Keeps w.logger (leveled env n code text w)
unfolding leveled day_backup
leveled-Keeps env n code text w fits h =
    let w' : World = record w { logger = record w.logger { locked = true } } in
    scoped-Keeps w _ h (
      if_Keeps (not w.logger.inited) w'.logger _ _ refl (
        if_Keeps (ltb n w.logger.log_level) w'.logger _ _ refl
          (write_line-Keeps env n text w' fits)))

pub call-leveled :
    (env : Outside) (m : Named) (text : Bytes) (w : World)
    → call env m text w ≡ leveled env (level m) (hidden m) text w
unfolding call debug info notice warn error crit fatal emerg
call-leveled env at_debug text w = refl
call-leveled env _ text w = refl

log-Keeps :
    (env : Outside) (n : ℤ) (text : Bytes) (w : World)
    → FitsBuffers env w.logger
    → w.logger.locked ≡ false
    → Keeps w.logger (log env n text w)
unfolding log day_backup
log-Keeps env n text w fits h =
    let w' : World = record w { logger = record w.logger { locked = true } } in
    scoped-Keeps w _ h (
      if_Keeps (not w.logger.inited) w'.logger _ _ refl (
        if_Keeps (ltb_ℤ n (pos w.logger.log_level) || ltb_ℤ (pos LogLevel.emerg) n) w'.logger _ _
          refl
          (if_Keeps (ltb_ℤ (pos w.logger.log_level) n) w'.logger _ _ refl
            (write_line-Keeps env w.logger.log_level text w' fits))))

pub run-Keeps :
    (env : Outside) (op : Op) (text : Bytes) (w : World)
    → FitsBuffers env w.logger
    → w.logger.locked ≡ false
    → Keeps w.logger (run env op text w)
unfolding run
run-Keeps env (by_name m) text w fits h =
    rw (call-leveled env m text w) (leveled-Keeps env (level m) (hidden m) text w fits h)
run-Keeps env (by_level n) text w fits h = log-Keeps env n text w fits h
