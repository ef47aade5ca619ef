-- ===== src/MySqlHelper/Keeps.antt =====
-- What the methods of `CMySqlHelper` keep of the list of calls.
use tag_etl.Codes.{error_not_connected}
use tag_etl.MySqlHelper.{
  ConnParam, release, sql_close, set_encode, fail, finish_conn, select_and_encode, real_connect,
  first_conn, second_conn, sql_conn, run_query, execute, execute_non_query, execute_query,
  fetch_one_row,
}
use tag_etl.Prelude.{ℕ, Bool, true, false, List, [], ◌∷◌, ◌≡◌, Bool-cases, inl, inr}
use tag_etl.System.Keeps.{Keeps, Leads, Stable, is_delete, keeps_rules}
use tag_etl.System.{Db, web, local, ◌>>=◌, mysql_query, Call, Env, Row, Link}
use tag_etl.Text.{Bytes}

module _ (P : List Call → Type 0) (stable : Stable P) (env : Env) (db : Db) where
  Keeps-release : (l : Link) → Keeps P (release env db l)
  unfolding release
  Keeps-release l = search keeps_rules depth 20

  pub Keeps-sql_close : Keeps P (sql_close env db)
  unfolding sql_close
  Keeps-sql_close = search keeps_rules depth 20

  Keeps-set_encode : (s : Bytes) → Keeps P (set_encode env db s)
  unfolding set_encode
  Keeps-set_encode [] = search keeps_rules
  Keeps-set_encode (c ∷ cs) = search keeps_rules depth 20

  Keeps-fail : (code : ℕ) → Keeps P (fail env db code)
  unfolding fail
  Keeps-fail code = search (keeps_rules, Keeps-sql_close) depth 20

  Keeps-finish_conn : (p : ConnParam) (code : ℕ) → Keeps P (finish_conn env db p code)
  unfolding finish_conn
  Keeps-finish_conn p code = search (keeps_rules, Keeps-sql_close) depth 20

  Keeps-select_and_encode : (p : ConnParam) → Keeps P (select_and_encode env db p)
  unfolding select_and_encode
  Keeps-select_and_encode p =
      search (keeps_rules, Keeps-fail, Keeps-finish_conn, Keeps-set_encode) depth 20

  Keeps-real_connect : (p : ConnParam) → Keeps P (real_connect env db p)
  unfolding real_connect
  Keeps-real_connect p = search (keeps_rules, Keeps-fail, Keeps-select_and_encode) depth 20

  Keeps-first_conn : (p : ConnParam) → Keeps P (first_conn env db p)
  unfolding first_conn
  Keeps-first_conn p = search (keeps_rules, Keeps-fail, Keeps-real_connect) depth 20

  Keeps-second_conn : (p : ConnParam) (l : Link) → Keeps P (second_conn env db p l)
  unfolding second_conn
  Keeps-second_conn p l = search keeps_rules depth 20

  pub Keeps-sql_conn : (p : ConnParam) → Keeps P (sql_conn env db p)
  unfolding sql_conn
  Keeps-sql_conn p = search (keeps_rules, Keeps-first_conn, Keeps-second_conn) depth 20

  Keeps-run_query :
      (sql : Bytes) → is_delete (mysql_query db sql) ≡ false → Keeps P (run_query env db sql)
  unfolding run_query
  Keeps-run_query sql h = search (keeps_rules, h) depth 20

  pub Keeps-execute :
      (sql : Bytes) (b : Bool)
      → is_delete (mysql_query db sql) ≡ false
      → Keeps P (execute env db sql b)
  unfolding execute
  Keeps-execute [] b h = search keeps_rules
  Keeps-execute (c ∷ cs) true h = search (keeps_rules, Keeps-run_query, h) depth 20
  Keeps-execute (c ∷ cs) false h = Keeps-run_query (c ∷ cs) h

  pub Keeps-execute_non_query :
      (sql : Bytes)
      → is_delete (mysql_query db sql) ≡ false
      → Keeps P (execute_non_query env db sql)
  unfolding execute_non_query
  Keeps-execute_non_query sql h = Keeps-execute sql true h

  pub Keeps-execute_query :
      (sql : Bytes) → is_delete (mysql_query db sql) ≡ false → Keeps P (execute_query env db sql)
  unfolding execute_query
  Keeps-execute_query sql h = search (keeps_rules, Keeps-execute, h) depth 20

  pub Keeps-fetch_one_row : (rows : List Row) → Keeps P (fetch_one_row env db rows)
  unfolding fetch_one_row
  Keeps-fetch_one_row [] = search keeps_rules depth 20
  Keeps-fetch_one_row (r ∷ rs) = search keeps_rules

-- A statement may change what is known of the calls: `Q` holds behind it, for the server's code, or
-- for ERROR_NOT_CONNECTED with no call made.
pub Leads-execute_non_query :
    (P : List Call → Type 0) (Q : ℕ → List Call → Type 0) (env : Env) (db : Db) (c : ℕ) (cs : Bytes)
    → ((calls : List Call)
        → P calls
        → Q (env.code (mysql_query db (c ∷ cs) ∷ calls)) (mysql_query db (c ∷ cs) ∷ calls))
    → ((calls : List Call) → P calls → Q error_not_connected calls)
    → Leads P Q (execute_non_query env db (c ∷ cs))
unfolding execute_non_query ◌>>=◌
Leads-execute_non_query P Q env web c cs hq hn = record {
  at = λ w h. elim (Bool-cases w.web_link.locked) [
    | inl e ↦ rw e tt
    | inr e ↦ elim (Bool-cases w.web_link.connected) [
      | inl on ↦ rw (e, on) (hq w.calls h)
      | inr off ↦ rw (e, off) (hn w.calls h)
    ]
  ];
}
Leads-execute_non_query P Q env local c cs hq hn = record {
  at = λ w h. elim (Bool-cases w.local_link.locked) [
    | inl e ↦ rw e tt
    | inr e ↦ elim (Bool-cases w.local_link.connected) [
      | inl on ↦ rw (e, on) (hq w.calls h)
      | inr off ↦ rw (e, off) (hn w.calls h)
    ]
  ];
}
