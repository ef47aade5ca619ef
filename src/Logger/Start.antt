-- ===== src/Logger/Start.antt =====
-- Which settings `Logger::init` of logger/logger.cpp takes, and the object that it leaves.
pub mod Members
use tag_etl.Logger.Start.Members.{ends_with_slash, fits_settings, set_members-cases}
use tag_etl.Logger.LogFile.{keeps_file, log_file, open_log_file, reopen}
use tag_etl.Logger.Moves.{bounded-some, bytes_eq_refl}
use tag_etl.Logger.Setup.{
  Settings, chosen, copied_path, end_path, finish_init, init, init_members, level_of, refused,
  set_members,
}
use tag_etl.Logger.{Disk, Logger, Outside, World, access, max_path_len}
use tag_etl.Prelude.{
  ℕ, suc, ◌+◌, ◌*◌, ◌<◌, ◌≡◌, ◌↔◌, ◌⊎◌, inl, inr, refl, sym, ap, ◌∙◌, Bool, true, false, Bool-cases,
  not, ◌&&◌, ◌==◌, [], ◌∷◌, ◌++◌, none, some, get_or, length, length-append, ltb, arith,
  if◌then◌else◌, ltb→lt,
}
use tag_etl.Text.Number.{ℤ, pos, negsuc}
use tag_etl.Text.{Bytes}

-- An object that `init` has not set up, and settings that pass its tests.
abbrev pub IsFresh : Settings → World → Type 0
IsFresh s w = (w.logger.inited ≡ false) × (w.logger.has_file ≡ false) × (refused s ≡ none)

open_log_file-first :
    (env : Outside) (w : World)
    → w.logger.has_file ≡ false
    → length w.logger.log_path < max_path_len
    → length w.logger.log_name < max_path_len
    → open_log_file env w
      ≡ some (reopen env (log_file w.logger) w.logger (record w.disk { calls = suc w.disk.calls }))
unfolding open_log_file keeps_file
open_log_file-first env w closed path name =
    let short =
      bounded-some (max_path_len * 2) (log_file w.logger)
        (omega (arith, length-append w.logger.log_path w.logger.log_name)) in
    simp (closed, short) refl

init-tested :
    (env : Outside) (s : Settings) (w : World) → IsFresh s w → init env s w ≡ init_members env s w
unfolding init
init-tested env s w fresh = simp (fresh.0, fresh.2) refl

init-overrun :
    (env : Outside) (s : Settings) (w : World)
    → IsFresh s w
    → set_members env s w.logger ≡ none
    → init env s w ≡ none
unfolding init_members
init-overrun env s w fresh e = init-tested env s w fresh ∙ rw e refl

abbrev opened_world : Outside → World → Logger → Bool × World
opened_world env w l = reopen env (log_file l) l (record w.disk { calls = suc w.disk.calls })

init-opened :
    (env : Outside) (s : Settings) (w : World) (l : Logger)
    → IsFresh s w
    → set_members env s w.logger ≡ some l
    → l.has_file ≡ false
    → length l.log_path < max_path_len
    → length l.log_name < max_path_len
    → init env s w ≡ (
        if (opened_world env w l).0
        then some (pos 0, finish_init s (opened_world env w l).1)
        else some (negsuc 5, (opened_world env w l).1))
unfolding init_members
init-opened env s w l fresh e closed path name =
    init-tested env s w fresh
    ∙ rw (e, open_log_file-first env (record w { logger = l }) closed path name) refl

some-ne-none : (b : Bool) (x y : ℤ × World) → (if b then some x else some y) ≡ none → ⊥
some-ne-none true x y h = cc
some-ne-none false x y h = cc

-- `init` of settings that pass its tests, on an object that it has not set up, leaves the bounds of an
-- array exactly where the name has 256 bytes or a path with its slash at the end has 256 or more, so
-- that it writes behind it, or where a path is empty, so that it reads in front of it.
pub init-none_iff :
    (env : Outside) (s : Settings) (w : World)
    → IsFresh s w
    → (init env s w ≡ none) ↔ (fits_settings s ≡ false)
init-none_iff env s w fresh = elim (set_members-cases env s w.logger) [
  | inl r ↦ (λ h. r.0, λ h. init-overrun env s w fresh r.1)
  | inr r ↦
      let e = init-opened env s w r.1 fresh r.2 (r.3.0 ∙ fresh.1) r.6.0 r.5 in
      let sure = r.0 in (λ h. absurd (some-ne-none _ _ _ (sym e ∙ h)), λ h. cc)
]

reopen-access :
    (env : Outside) (path : Bytes) (l : Logger) (d : Disk)
    → env.opens d.calls ≡ true
    → access path (reopen env path l d).1.disk ≡ true
unfolding reopen
reopen-access env path l d granted = ground (arith, bytes_eq_refl path)

-- `init` of settings that pass its tests and fit, on an object that it has not set up, returns 0 where
-- fopen is granted: the object is set up, with the log open, its path with a slash at its end, its
-- threshold the level that the name stands for, the log exists, and a further `init` returns 0 and
-- changes nothing.
pub init-starts :
    (env : Outside) (s : Settings) (w : World)
    → IsFresh s w
    → fits_settings s ≡ true
    → env.opens (suc w.disk.calls) ≡ true
    → (w' : World) × (init env s w ≡ some (pos 0, w'))
      × (w'.logger.inited ≡ true)
      × (w'.logger.has_file ≡ true)
      × (ends_with_slash w'.logger.log_path ≡ true)
      × (w'.logger.log_name ≡ s.name)
      × (w'.logger.log_level ≡ level_of s.level_name w.logger.log_level)
      × (access (log_file w'.logger) w'.disk ≡ true)
      × ((s' : Settings) → init env s' w' ≡ some (pos 0, w'))
unfolding init finish_init reopen
init-starts env s w fresh fits granted = elim (set_members-cases env s w.logger) [
  | inl r ↦ let missing = r.0 in absurd (ground (arith, fits, missing))
  | inr r ↦
      let l = r.1 in
      let e = init-opened env s w l fresh r.2 (r.3.0 ∙ fresh.1) r.6.0 r.5 in
      (
        finish_init s (opened_world env w l).1,
        e ∙ rw granted refl,
        refl,
        granted,
        r.6.1,
        r.4,
        ap (level_of s.level_name) r.3.2,
        reopen-access env (log_file l) l (record w.disk { calls = suc w.disk.calls }) granted,
        λ s'. refl,
      )
]
