-- ===== src/SongLib/Connection.antt =====
-- `CLib` of songLib/lib.cpp: the connection that both libraries inherit. m_conn_mutex is taken and
-- given back only by callers that ask for it.
pub mod Keeps
pub mod FromFile
pub mod Runs
use tag_etl.Codes.{s_ok}
use tag_etl.MySqlHelper.{ConnParam, is_connected, sql_conn, sql_close, destroy}
use tag_etl.Prelude.{
  ℕ, Bool, true, false, List, [], ◌∷◌, Option, none, some, ◌==◌, if◌then◌else◌, ◌>>=◌ as ◌>>=ₒ◌,
}
use tag_etl.Profile.Build.{Section}
use tag_etl.Profile.Load.{db_config_pos, load_profile}
use tag_etl.Profile.Lookup.{get_profile_string_w, get_profile_int_w}
use tag_etl.System.{
  Db, Env, Link, World, Act, ◌>>=◌, ◌>>◌, pure, lift, branch, get_link, put_link, link_of, set_link,
}
use tag_etl.Text.Number.{ℤ, pos, to_uint}
use tag_etl.Text.{Bytes, codes}

abbrev no_param : ConnParam
no_param = record { host = []; port = 0; db_name = []; user_name = []; passwd = [] }

-- if((uRet = prof.GetProfileStringW(strDB, key, …)) != S_OK) goto e_exist
string_field :
    List Section → Bytes → Bytes → (Bytes → Option (ℕ × ConnParam)) → Option (ℕ × ConnParam)
string_field p sec key k =
    get_profile_string_w p sec key [] >>=ₒ λ r. if r.0 == s_ok then k r.1 else some (r.0, no_param)

int_field : List Section → Bytes → Bytes → (ℤ → Option (ℕ × ConnParam)) → Option (ℕ × ConnParam)
int_field p sec key k = get_profile_int_w p sec key (pos 0) >>=ₒ λ r.
    if r.0 == s_ok then k r.1 else some (r.0, no_param)

unfoldable pub conn_param_in : List Section → Bytes → Option (ℕ × ConnParam)
unfolding string_field int_field to_uint
conn_param_in p str_db = string_field p str_db (codes "host") λ host.
    int_field p str_db (codes "port") λ port. string_field p str_db (codes "dbName") λ db_name.
      string_field p str_db (codes "userName") λ user_name.
        string_field p str_db (codes "passWord") λ passwd. some (
          s_ok,
          record {
            host = host;
            port = to_uint port;
            db_name = db_name;
            user_name = user_name;
            passwd = passwd;
          },
        )

loaded_param : Bytes → ℕ × List Section → Option (ℕ × ConnParam)
unfolding conn_param_in
loaded_param str_db (code, p) =
    if code == s_ok then conn_param_in p str_db else some (code, no_param)

-- The profile is released on every path.
unfoldable pub get_conn_param : Env → Bytes → Act (ℕ × ConnParam)
unfolding load_profile loaded_param
get_conn_param env str_db = do
  loaded ← load_profile env [] db_config_pos
  lift (loaded_param str_db loaded)

lock_conn : Db → Act (Unit {0})
lock_conn db w =
    let l = link_of db w in
    if l.conn_locked then none else some (tt, set_link db (record l { conn_locked = true }) w)

unlock_conn : Db → Act (Unit {0})
unlock_conn db w = some (tt, set_link db (record (link_of db w) { conn_locked = false }) w)

conn_with : Env → Db → Bool → ℕ × ConnParam → Act ℕ
conn_with env db with_lock (code, cp) =
    branch (code == s_ok) (do branch with_lock (lock_conn db) (pure tt); sql_conn env db cp)
      (pure code)

unfoldable pub connect_to_lib : Env → Db → Bytes → Bool → Act ℕ
unfolding conn_with lock_conn
connect_to_lib env db str_db with_lock = do
  param ← get_conn_param env str_db
  conn_with env db with_lock param

pub dis_conn_from_lib : Env → Db → Bool → Act (Unit {0})
unfolding is_connected
dis_conn_from_lib env db with_lock = do
  l ← get_link db
  branch (is_connected l) (sql_close env db) (pure tt)
  branch with_lock (unlock_conn db) (pure tt)

-- ~CLib, and ~CMySqlHelper of its member behind it
pub destroy_lib : Env → Db → Act (Unit {0})
unfolding dis_conn_from_lib
destroy_lib env db = do dis_conn_from_lib env db false; destroy env db
