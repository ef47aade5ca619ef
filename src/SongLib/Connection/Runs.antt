-- ===== src/SongLib/Connection/Runs.antt =====
-- `LoadProfile` of utils/Profile.cpp and the connection of songLib/lib.cpp return.
use tag_etl.Codes.{s_ok}
use tag_etl.MySqlHelper.Frames.{Frames-sql_conn}
use tag_etl.MySqlHelper.Runs.Room.{
  Starts, RoomOf, Anywhere, Starts-branch, Starts-bind, Starts-unless, Starts-sql_conn, Runs-Starts,
  Starts-framed,
}
use tag_etl.System.Frames.{
  Frames, Frames-branch, Frames-bind, Frames-unless, Frames-pure, frames_rules,
}
use tag_etl.MySqlHelper.Runs.Statements.{Runs-sql_close, Runs-destroy}
use tag_etl.MySqlHelper.Runs.{
  Runs, Any, IsSome, IsSome-bind, IsSome-if, Runs-unless, Runs-bind, Runs-branch, Runs-pure-Any,
  Runs-lift-Any, Runs-call_file, Runs-get_link,
}
use tag_etl.MySqlHelper.{ConnParam, is_connected}
use tag_etl.Prelude.{ℕ, false, List, [], ◌∷◌, Option, ◌==◌}
use tag_etl.Profile.Build.{Section}
use tag_etl.Profile.Load.{profile_of, load_profile}
use tag_etl.Profile.Lookup.First.{get_prof_value-value_of}
use tag_etl.Profile.Lookup.{get_profile_string_w, get_profile_int_w}
use tag_etl.SongLib.Connection.{
  conn_param_in, loaded_param, get_conn_param, conn_with, lock_conn, unlock_conn, connect_to_lib,
  dis_conn_from_lib, destroy_lib, string_field, int_field,
}
use tag_etl.System.{Db, web, local, Call, Env, pure}
use tag_etl.Text.Number.{ℤ}
use tag_etl.Text.{Bytes}

pub get_profile_string_w-IsSome :
    (p : List Section) (sec itm old : Bytes) → IsSome (get_profile_string_w p sec itm old)
unfolding get_profile_string_w
get_profile_string_w-IsSome p sec itm old = rw (get_prof_value-value_of p sec itm old) tt

pub get_profile_int_w-IsSome :
    (p : List Section) (sec itm : Bytes) (old : ℤ) → IsSome (get_profile_int_w p sec itm old)
unfolding get_profile_int_w
get_profile_int_w-IsSome p sec itm old = rw (get_prof_value-value_of p sec itm []) tt

string_field-IsSome :
    (p : List Section) (sec key : Bytes) (k : Bytes → Option (ℕ × ConnParam))
    → ((s : Bytes) → IsSome (k s))
    → IsSome (string_field p sec key k)
unfolding string_field
string_field-IsSome p sec key k h =
    IsSome-bind (get_profile_string_w p sec key []) _ (get_profile_string_w-IsSome p sec key [])
      λ r. IsSome-if (r.0 == s_ok) (k r.1) _ (h r.1) tt

int_field-IsSome :
    (p : List Section) (sec key : Bytes) (k : ℤ → Option (ℕ × ConnParam))
    → ((s : ℤ) → IsSome (k s))
    → IsSome (int_field p sec key k)
unfolding int_field
int_field-IsSome p sec key k h =
    IsSome-bind (get_profile_int_w p sec key (ℤ.pos 0)) _
      (get_profile_int_w-IsSome p sec key (ℤ.pos 0))
      λ r. IsSome-if (r.0 == s_ok) (k r.1) _ (h r.1) tt

conn_param_in-IsSome : (p : List Section) (name : Bytes) → IsSome (conn_param_in p name)
unfolding conn_param_in
conn_param_in-IsSome p name = string_field-IsSome p name _ _ λ host.
    int_field-IsSome p name _ _ λ port.
      string_field-IsSome p name _ _
        λ db. string_field-IsSome p name _ _ λ user. string_field-IsSome p name _ _ λ passwd. tt

loaded_param-IsSome : (name : Bytes) (r : ℕ × List Section) → IsSome (loaded_param name r)
unfolding loaded_param
loaded_param-IsSome name (code, p) =
    IsSome-if (code == s_ok) (conn_param_in p name) _ (conn_param_in-IsSome p name) tt

-- Each file that is read is one that loading takes.
module _ (env : Env) (files : (calls : List Call) → IsSome (profile_of [] (env.file calls))) where
  pub Runs-load_profile : (c : ℕ) (cs : Bytes) → Runs Any (load_profile env [] (c ∷ cs))
  unfolding load_profile
  Runs-load_profile c cs =
      Runs-bind _ _ (Runs-call_file env _ (λ f. IsSome (profile_of [] f)) files)
        λ f h. Runs-lift-Any (profile_of [] f) h

  Runs-get_conn_param : (name : Bytes) → Runs Any (get_conn_param env name)
  unfolding get_conn_param
  Runs-get_conn_param name =
      Runs-bind _ _ (Runs-load_profile _ _) λ r _. Runs-lift-Any _ (loaded_param-IsSome name r)

  Frames-get_conn_param : (db : Db) (name : Bytes) → Frames db (get_conn_param env name)
  unfolding get_conn_param load_profile
  Frames-get_conn_param db name = search frames_rules depth 20

  Starts-conn_with :
      (db : Db) (r : ℕ × ConnParam) → Starts (RoomOf db) Anywhere Any (conn_with env db false r)
  unfolding conn_with
  Starts-conn_with db (code, cp) =
      Starts-branch (RoomOf db) Anywhere (code == s_ok) _ _
        (Starts-bind (RoomOf db) (RoomOf db) Anywhere _ _ (Starts-unless (RoomOf db) (lock_conn db))
          λ _ _. Starts-sql_conn env db cp)
        (Runs-Starts (RoomOf db) _ (Runs-pure-Any code))

  -- The parameters are read with both links as they were.
  Starts-read :
      (db : Db) (name : Bytes) → Starts (RoomOf db) (RoomOf db) Any (get_conn_param env name)
  Starts-read web name =
      Starts-framed (RoomOf web) local _ (λ w p. p) (Frames-get_conn_param local name)
        (Runs-Starts (RoomOf web) _ (Runs-get_conn_param name))
  Starts-read local name =
      Starts-framed (RoomOf local) web _ (λ w p. p) (Frames-get_conn_param web name)
        (Runs-Starts (RoomOf local) _ (Runs-get_conn_param name))

  pub Starts-connect_to_lib :
      (db : Db) (name : Bytes) → Starts (RoomOf db) Anywhere Any (connect_to_lib env db name false)
  unfolding connect_to_lib
  Starts-connect_to_lib db name =
      Starts-bind (RoomOf db) (RoomOf db) Anywhere _ _ (Starts-read db name)
        λ r _. Starts-conn_with db r

  Frames-conn_with : (db : Db) (r : ℕ × ConnParam) → Frames db (conn_with env db false r)
  unfolding conn_with
  Frames-conn_with db (code, cp) =
      Frames-branch db (code == s_ok) _ _
        (Frames-bind db _ _ (Frames-unless db (lock_conn db) (pure tt) (Frames-pure db tt))
          λ _. Frames-sql_conn env db cp)
        (Frames-pure db code)

  pub Frames-connect_to_lib :
      (db : Db) (name : Bytes) → Frames db (connect_to_lib env db name false)
  unfolding connect_to_lib
  Frames-connect_to_lib db name =
      Frames-bind db _ _ (Frames-get_conn_param db name) λ r. Frames-conn_with db r

module _ (env : Env) (db : Db) where
  pub Runs-dis_conn_from_lib : Runs Any (dis_conn_from_lib env db false)
  unfolding dis_conn_from_lib
  Runs-dis_conn_from_lib = Runs-bind _ _ (Runs-get_link db) λ l _.
      Runs-bind _ _ (Runs-branch (is_connected l) _ _ (Runs-sql_close env db) (Runs-pure-Any tt))
        λ _ _. Runs-unless (unlock_conn db) (pure tt) (Runs-pure-Any tt)

  pub Runs-destroy_lib : Runs Any (destroy_lib env db)
  unfolding destroy_lib
  Runs-destroy_lib = Runs-bind _ _ Runs-dis_conn_from_lib λ _ _. Runs-destroy env db
