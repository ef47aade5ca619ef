-- ===== src/Logger/Mutex.antt =====
-- `log_mutex` of logger/logger.h over any sequence of calls of the object.
use mathlib.Core.Path.{subst}
use tag_etl.Logger.LogFile.{day_backup}
use tag_etl.Logger.Methods.{Op, run, run_all}
use tag_etl.Logger.Returns.{FitsBuffers, Keeps, run-Keeps}
use tag_etl.Logger.{Outside, Logger, World}
use tag_etl.Prelude.{◌≡◌, refl, sym, ap, ◌∙◌, Bool, false, List, [], ◌∷◌, Option, none, some}
use tag_etl.Text.Number.{ℤ}
use tag_etl.Text.{Bytes}

abbrev pub with_file : Logger → Bool → Logger
with_file l b = record l { has_file = b }

run-returns :
    (env : Outside) (op : Op) (text : Bytes) (w : World)
    → FitsBuffers env w.logger
    → w.logger.locked ≡ false
    → (r : ℤ × World) × (run env op text w ≡ some r)
      × (r.1.logger ≡ with_file w.logger r.1.logger.has_file)
run-returns env op text w fits h =
    returned (run env op text w) refl (run-Keeps env op text w fits h)
  where
    returned :
        (o : Option (ℤ × World))
        → run env op text w ≡ o
        → Keeps w.logger o
        → (r : ℤ × World) × (run env op text w ≡ some r)
          × (r.1.logger ≡ with_file w.logger r.1.logger.has_file)
    returned none e k = elim k [ ]
    returned (some r) e k = (r, e, k)

FitsBuffers-next :
    (env : Outside) (l l' : Logger)
    → l' ≡ with_file l l'.has_file
    → FitsBuffers env l
    → FitsBuffers env l'
unfolding day_backup
FitsBuffers-next env l l' e fits = subst (λ x. FitsBuffers env x) (sym e) fits

-- Whatever the system answers, every sequence of `log` and of the methods named for a level returns
-- where the mutex is free at the start, the path of the log and the names of its days fit their
-- buffers, and the log is split by days or ftell stays below its largest size.
-- At the end the mutex is free again, and of the object only whether the file is open may differ.
pub run_all-returns :
    (env : Outside) (ops : List (Op × Bytes)) (w : World)
    → FitsBuffers env w.logger
    → w.logger.locked ≡ false
    → (w' : World) × (run_all env ops w ≡ some w')
      × (w'.logger.locked ≡ false)
      × (w'.logger ≡ with_file w.logger w'.logger.has_file)
unfolding run_all
run_all-returns env [] w fits h = (w, refl, h, refl)
run_all-returns env ((op, text) ∷ ops) w fits h =
    let r = run-returns env op text w fits h in
    let free = ap (λ (l : Logger). l.locked) r.2 ∙ h in
    let rest =
      run_all-returns env ops r.0.1 (FitsBuffers-next env w.logger r.0.1.logger r.2 fits) free in
    (
      rest.0,
      rw r.1 rest.1,
      rest.2,
      rest.3 ∙ ap (λ (l : Logger). with_file l rest.0.logger.has_file) r.2,
    )
