-- ===== src/SongLib/Connection/Keeps.antt =====
-- What the methods of `CLib` keep of the list of calls, and `LoadProfile` with them.
use tag_etl.MySqlHelper.Keeps.{Keeps-sql_close, Keeps-sql_conn}
use tag_etl.MySqlHelper.{ConnParam, is_connected}
use tag_etl.Prelude.{ℕ, Bool, List, [], ◌∷◌}
use tag_etl.Profile.Build.{Section}
use tag_etl.Profile.Load.{load_profile}
use tag_etl.SongLib.Connection.{
  lock_conn, unlock_conn, conn_with, get_conn_param, connect_to_lib, dis_conn_from_lib,
}
use tag_etl.System.Keeps.{
  Keeps, Stable, Keeps-lock_if, Keeps-bind, Keeps-get_link, Keeps-branch, Keeps-pure, keeps_rules,
}
use tag_etl.System.{Db, web, local, Call, Env, get_link, branch, ◌>>=◌}
use tag_etl.Text.{Bytes}

module _ (P : List Call → Type 0) (stable : Stable P) (env : Env) where
  pub Keeps-load_profile : (old : List Section) (path : Bytes) → Keeps P (load_profile env old path)
  unfolding load_profile
  Keeps-load_profile old [] = search keeps_rules
  Keeps-load_profile old (c ∷ cs) = search keeps_rules depth 20

  Keeps-lock_conn : (db : Db) → Keeps P (lock_conn db)
  unfolding lock_conn
  Keeps-lock_conn web = record { at = λ w h. Keeps-lock_if P w.web_link.conn_locked _ h }
  Keeps-lock_conn local = record { at = λ w h. Keeps-lock_if P w.local_link.conn_locked _ h }

  Keeps-unlock_conn : (db : Db) → Keeps P (unlock_conn db)
  unfolding unlock_conn
  Keeps-unlock_conn web = record { at = λ w h. h }
  Keeps-unlock_conn local = record { at = λ w h. h }

  Keeps-conn_with : (db : Db) (b : Bool) (r : ℕ × ConnParam) → Keeps P (conn_with env db b r)
  unfolding conn_with
  Keeps-conn_with db b (code, cp) =
      search (keeps_rules, Keeps-lock_conn, Keeps-sql_conn P stable env db) depth 20

  pub Keeps-connect_to_lib :
      (db : Db) (name : Bytes) (b : Bool) → Keeps P (connect_to_lib env db name b)
  unfolding connect_to_lib get_conn_param
  Keeps-connect_to_lib db name b =
      search (keeps_rules, Keeps-load_profile, Keeps-conn_with) depth 20

  pub Keeps-dis_conn_from_lib : (db : Db) (b : Bool) → Keeps P (dis_conn_from_lib env db b)
  unfolding dis_conn_from_lib get_link ◌>>=◌ branch
  Keeps-dis_conn_from_lib db b =
      Keeps-bind _ _
        (Keeps-bind _ _ (Keeps-get_link db) (λ l.
          Keeps-branch (is_connected l) _ _ (Keeps-sql_close P stable env db) (Keeps-pure tt)))
        (λ _. Keeps-branch b _ _ (Keeps-unlock_conn db) (Keeps-pure tt))
