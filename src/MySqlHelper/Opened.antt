-- ===== src/MySqlHelper/Opened.antt =====
-- The first connection of a `CMySqlHelper`.
use tag_etl.Codes.{error_connection_refused, error_mysql_init}
use tag_etl.Prelude.{ℕ, ◌≡◌, refl, Bool, true, false, ◌==◌, if◌then◌else◌, arith}
use tag_etl.MySqlHelper.{
  ConnParam, conn_string, fail, finish_conn, select_and_encode, real_connect, first_conn,
}
use tag_etl.System.{
  Db, record_call, mysql_real_connect, mysql_init, new_mysql, web, local, Env, Link, World, link_of,
  set_link, Returns, ◌>>=◌,
}
use tag_etl.Text.{Bytes}

-- What a first connection leaves: one user with the code S_OK, none with any other.
pub record Opened (p : ConnParam) (code : ℕ) (l : Link) : Type 0 where
  pub free : l.locked ≡ false
  pub users : l.num_ref ≡ (if code == 0 then 1 else 0)
  pub open_now : l.connected ≡ (code == 0)
  pub key : (if code == 0 then l.sql_conn else conn_string p) ≡ conn_string p

abbrev pub state : Bool → ℕ → Bool → Bytes → Bool → Link
state connected num_ref locked key conn_locked = record {
  connected = connected;
  num_ref = num_ref;
  locked = locked;
  sql_conn = key;
  conn_locked = conn_locked;
}

module _ (env : Env) (p : ConnParam) (key : Bytes) (cl : Bool) where
  fail-Opened :
      (db : Db) (code : ℕ) (connected : Bool) (w : World)
      → (code == 0) ≡ false
      → Returns
          (fail env db code (set_link db (state connected 0 true key cl) w))
          (λ c w'. Opened p c (link_of db w'))
  unfolding fail ◌>>=◌
  fail-Opened web code true w e = ground arith
  fail-Opened web code false w e = ground arith
  fail-Opened local code true w e = ground arith
  fail-Opened local code false w e = ground arith

  finish_conn-Opened :
      (db : Db) (code : ℕ) (w : World)
      → Returns
          (finish_conn env db p code (set_link db (state true 0 false key cl) w))
          (λ c w'. Opened p c (link_of db w'))
  unfolding finish_conn ◌>>=◌
  finish_conn-Opened web code w = ground arith
  finish_conn-Opened local code w = ground arith

  select_and_encode-Opened :
      (db : Db) (w : World)
      → Returns
          (select_and_encode env db p (set_link db (state true 0 true key cl) w))
          (λ c w'. Opened p c (link_of db w'))
  unfolding select_and_encode ◌>>=◌
  select_and_encode-Opened web w = ground arith
  select_and_encode-Opened local w = ground arith

  real_connect-Opened :
      (db : Db) (w : World)
      → Returns
          (real_connect env db p (set_link db (state true 0 true key cl) w))
          (λ c w'. Opened p c (link_of db w'))
  unfolding real_connect ◌>>=◌
  real_connect-Opened web w =
      let w' = record_call (mysql_real_connect web p.host p.port p.user_name p.passwd) w in
      ground (
        arith,
        fail-Opened web error_connection_refused false w' refl,
        select_and_encode-Opened web w',
      )
  real_connect-Opened local w =
      let w' = record_call (mysql_real_connect local p.host p.port p.user_name p.passwd) w in
      ground (
        arith,
        fail-Opened local error_connection_refused false w' refl,
        select_and_encode-Opened local w',
      )

  pub first_conn-Opened :
      (db : Db) (w : World)
      → Returns
          (first_conn env db p (set_link db (state false 0 true key cl) w))
          (λ c w'. Opened p c (link_of db w'))
  unfolding first_conn ◌>>=◌
  first_conn-Opened web w =
      let w' = record_call (mysql_init web) (record_call (new_mysql web) w) in
      ground (arith, fail-Opened web error_mysql_init true w' refl, real_connect-Opened web w')
  first_conn-Opened local w =
      let w' = record_call (mysql_init local) (record_call (new_mysql local) w) in
      ground (arith, fail-Opened local error_mysql_init true w' refl, real_connect-Opened local w')
