-- ===== src/FileLock.antt =====
-- `CFileLock` of logger/filelock.cpp and logger/filelock.h: record locks of fcntl on one descriptor. The
-- system answers as a function of the calls so far, the call itself in front: nothing, or errno.
use tag_etl.Prelude.{ℕ, Bool, true, List, ◌∷◌, Option, none, some, not, ◌==◌}
use tag_etl.Text.Number.{ℤ}
use tag_etl.Text.{Bytes}

pub data Cmd : Type 0 where
  setlk setlkw : Cmd

pub data LockType : Type 0 where
  rdlck wrlck unlck : LockType

-- The bytes of a lock: struct flock without its type.
pub record Region : Type 0 where
  pub start : ℤ
  pub len : ℤ
  pub whence : ℤ

pub data Call : Type 0 where
  open_file : Bytes → Call
  fcntl : Cmd → LockType → Region → Call
  close_file : Call

pub record System : Type 0 where
  pub errno : List Call → Option ℕ
  pub eintr : ℕ

-- The constructor opens the path; what open answers is not looked at.
unfoldable pub new_file_lock : Bytes → List Call → List Call
new_file_lock path calls = open_file path ∷ calls

unfoldable pub delete_file_lock : List Call → List Call
delete_file_lock calls = close_file ∷ calls

module _ (env : System) where
  -- Fcntl: false where the call is interrupted, and true for every other error.
  unfoldable pub fcntl_lock : Cmd → LockType → Region → List Call → Bool × List Call
  fcntl_lock cmd type region calls =
      let calls' = fcntl cmd type region ∷ calls in
      elim (env.errno calls') [ none ↦ (true, calls') | some e ↦ (not (e == env.eintr), calls') ]

  unfoldable pub read_lock : Region → List Call → Bool × List Call
  unfolding fcntl_lock
  read_lock = fcntl_lock setlk rdlck

  unfoldable pub write_lock : Region → List Call → Bool × List Call
  unfolding fcntl_lock
  write_lock = fcntl_lock setlk wrlck

  unfoldable pub read_lock_w : Region → List Call → Bool × List Call
  unfolding fcntl_lock
  read_lock_w = fcntl_lock setlkw rdlck

  unfoldable pub write_lock_w : Region → List Call → Bool × List Call
  unfolding fcntl_lock
  write_lock_w = fcntl_lock setlkw wrlck

  unfoldable pub unlock : Region → List Call → Bool × List Call
  unfolding fcntl_lock
  unlock = fcntl_lock setlk unlck
