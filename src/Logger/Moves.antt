-- ===== src/Logger/Moves.antt =====
-- The files after `open_log_file` of logger/logger.cpp has moved one, with link granted always or never.
use mathlib.Core.Path.{fun_ext}
use tag_etl.Logger.LogFile.{reopen}
use tag_etl.Logger.{bounded, set_file, Outside, Disk, Logger}
use tag_etl.Prelude.{
  some, length, ℕ, ◌<◌, ◌≡◌, ◌≢◌, refl, Bool, true, false, [], Option, none, arith, if◌then◌else◌,
}
use tag_etl.Text.{Bytes, bytes_eq, bytes_eq_iff}

pub bytes_eq_refl : (a : Bytes) → bytes_eq a a ≡ true
bytes_eq_refl a = (bytes_eq_iff a a).1 refl

pub bytes_eq-false : (a b : Bytes) → a ≢ b → bytes_eq a b ≡ false
bytes_eq-false a b h = ground (arith, bytes_eq_iff a b)

pub bounded-some : (size : ℕ) (s : Bytes) → length s < size → bounded size s ≡ some s
bounded-some size s h = ground arith

abbrev pub kept : Bool → Option Bytes → Option Bytes
kept b o = if b then o else none

-- The files after `old` is moved to `new`.
abbrev pub moved : Bool → Bytes → Bytes → (Bytes → Option Bytes) → Bytes → Option Bytes
moved b old new f p =
    if bytes_eq p new then kept b (f old) else if bytes_eq p old then none else f p

module _ (env : Outside) (opened : (n : ℕ) → env.opens n ≡ true) where
  pub reopen-fresh :
      (path : Bytes) (l : Logger) (d : Disk)
      → d.files path ≡ none
      → l.has_file ≡ true
      → ((reopen env path l d).0 ≡ true)
        × ((reopen env path l d).1.logger ≡ l)
        × ((reopen env path l d).1.disk.files ≡ set_file path (some []) d.files)
  unfolding reopen
  reopen-fresh path l d gone has =
      (opened d.calls, ground (arith, opened d.calls), fun_ext λ p. ground (arith, opened d.calls))
