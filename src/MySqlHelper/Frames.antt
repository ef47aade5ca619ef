-- ===== src/MySqlHelper/Frames.antt =====
-- What connecting and closing leave alone: the link of the other object.
use tag_etl.MySqlHelper.{
  ConnParam, release, sql_close, set_encode, fail, finish_conn, select_and_encode, real_connect,
  first_conn, second_conn, sql_conn,
}
use tag_etl.Prelude.{ℕ, [], ◌∷◌}
use tag_etl.System.Frames.{Frames, frames_rules}
use tag_etl.System.{Db, Env, Link}
use tag_etl.Text.{Bytes}

module _ (env : Env) (db : Db) where
  Frames-release : (l : Link) → Frames db (release env db l)
  unfolding release
  Frames-release l = search frames_rules depth 20

  pub Frames-sql_close : Frames db (sql_close env db)
  unfolding sql_close
  Frames-sql_close = search (frames_rules, Frames-release) depth 20

  Frames-set_encode : (s : Bytes) → Frames db (set_encode env db s)
  unfolding set_encode
  Frames-set_encode [] = search frames_rules
  Frames-set_encode (c ∷ cs) = search frames_rules depth 20

  Frames-fail : (code : ℕ) → Frames db (fail env db code)
  unfolding fail
  Frames-fail code = search (frames_rules, Frames-sql_close) depth 20

  Frames-finish_conn : (p : ConnParam) (code : ℕ) → Frames db (finish_conn env db p code)
  unfolding finish_conn
  Frames-finish_conn p code = search (frames_rules, Frames-sql_close) depth 20

  Frames-select_and_encode : (p : ConnParam) → Frames db (select_and_encode env db p)
  unfolding select_and_encode
  Frames-select_and_encode p =
      search (frames_rules, Frames-fail, Frames-set_encode, Frames-finish_conn) depth 20

  Frames-real_connect : (p : ConnParam) → Frames db (real_connect env db p)
  unfolding real_connect
  Frames-real_connect p = search (frames_rules, Frames-fail, Frames-select_and_encode) depth 20

  Frames-first_conn : (p : ConnParam) → Frames db (first_conn env db p)
  unfolding first_conn
  Frames-first_conn p = search (frames_rules, Frames-fail, Frames-real_connect) depth 20

  Frames-second_conn : (p : ConnParam) (l : Link) → Frames db (second_conn env db p l)
  unfolding second_conn
  Frames-second_conn p l = search frames_rules depth 20

  pub Frames-sql_conn : (p : ConnParam) → Frames db (sql_conn env db p)
  unfolding sql_conn
  Frames-sql_conn p = search (frames_rules, Frames-first_conn, Frames-second_conn) depth 20
