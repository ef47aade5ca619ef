-- ===== src/MySqlHelper.antt =====
-- `CMySqlHelper` of utils/MySqlHelper.cpp. The object is one of the two links of the world; its
-- pointer m_pSqlConn counts as null or not. A result set is the list of the rows not fetched yet.
pub mod Escape
pub mod Opened
pub mod Connection
pub mod Queries
pub mod Keeps
pub mod Frames
pub mod Runs
use tag_etl.Codes.{
  s_ok, error_invalid_parameter, error_connection_refused, error_not_connected,
  error_database_failure, error_mysql_init, error_mysql_store_res, error_mysql_fetch_failed,
  error_mysql_set_encode, error_db_already_connected,
}
use tag_etl.Prelude.{
  ℕ, ◌+◌, ◌-◌, ◌^◌, Bool, true, false, List, [], ◌∷◌, ◌++◌, Option, none, some, ◌==◌, ltb,
  if◌then◌else◌, not, ◌&&◌,
}
use tag_etl.System.{
  Db, Call, Row, Env, Link, World, Act, ◌>>=◌, ◌>>◌, pure, lift, branch, call, call_rows, get_link,
  put_link, lock, unlock, new_mysql, delete_mysql, mysql_init, mysql_close, mysql_store_result,
  mysql_free_result, mysql_real_connect, mysql_select_db, mysql_query,
}
use tag_etl.Text.Converter.{print_unsigned}
use tag_etl.Text.{Bytes, bytes_eq, codes}

pub record ConnParam : Type 0 where
  pub host : Bytes
  pub port : ℕ
  pub db_name : Bytes
  pub user_name : Bytes
  pub passwd : Bytes

-- strHost + string(pPort) + strDBName + strUserName + strPasswd
unfoldable pub conn_string : ConnParam → Bytes
unfolding print_unsigned
conn_string p = p.host ++ (print_unsigned p.port ++ (p.db_name ++ (p.user_name ++ p.passwd)))

unfoldable pub is_connected : Link → Bool
is_connected l = l.connected && ltb 0 l.num_ref

-- m_numRef ++; the greatest int overflows.
abbrev next_ref : ℕ → Option ℕ
next_ref n = if ltb (n + 1) (2 ^ 31) then some (n + 1) else none

module _ (env : Env) (db : Db) where
  release : Link → Act (Unit {0})
  release l =
      branch (l.num_ref == 0)
        (do
          call env (mysql_close db)
          call env (delete_mysql db)
          put_link db (record l { connected = false }))
        (put_link db l)

  unfoldable pub sql_close : Act (Unit {0})
  unfolding release
  sql_close = do
    lock db
    l ← get_link db
    branch (not l.connected) (unlock db)
        do release (record l { num_ref = l.num_ref - 1 }); unlock db

  -- ~CMySqlHelper
  unfoldable pub destroy : Act (Unit {0})
  destroy = do
    l ← get_link db
    call env (mysql_close db)
    branch l.connected (do call env (delete_mysql db); pure tt) (pure tt)

  unfoldable pub set_encode : Bytes → Act ℕ
  set_encode [] = pure error_invalid_parameter
  set_encode (c ∷ cs) = do
    lock db
    l ← get_link db
    branch (not l.connected) (do unlock db; pure error_not_connected)
        do
          code ← call env (mysql_query db (codes "SET NAMES " ++ (c ∷ cs)))
          unlock db
          pure (if code == 0 then s_ok else error_mysql_set_encode)

  -- e_exit, for an error
  fail : ℕ → Act ℕ
  unfolding sql_close
  fail code = do unlock db; sql_close; pure code

  -- behind SetEncode(DEFAULT_ENCODE)
  finish_conn : ConnParam → ℕ → Act ℕ
  unfolding sql_close
  finish_conn p code =
      branch (code == s_ok)
        (do
          lock db
          l ← get_link db
          put_link db (record l { sql_conn = conn_string p; num_ref = 1 })
          unlock db
          pure s_ok)
        (do sql_close; pure code)

  select_and_encode : ConnParam → Act ℕ
  unfolding fail finish_conn set_encode
  select_and_encode p = do
    selected ← call env (mysql_select_db db p.db_name)
    branch (not (selected == 0)) (fail error_database_failure)
        do unlock db; code ← set_encode (codes "utf8"); finish_conn p code

  -- A failed mysql_real_connect puts its null result into m_pSqlConn.
  real_connect : ConnParam → Act ℕ
  real_connect p = do
    connected ← call env (mysql_real_connect db p.host p.port p.user_name p.passwd)
    l ← get_link db
    branch (not (connected == 0))
        (do put_link db (record l { connected = false }); fail error_connection_refused)
        (select_and_encode p)

  pub first_conn : ConnParam → Act ℕ
  first_conn p = do
    l ← get_link db
    call env (new_mysql db)
    put_link db (record l { connected = true })
    started ← call env (mysql_init db)
    branch (not (started == 0)) (fail error_mysql_init) (real_connect p)

  -- on a connection that is open
  second_conn : ConnParam → Link → Act ℕ
  second_conn p l =
      branch (bytes_eq l.sql_conn (conn_string p))
        (do
          n ← lift (next_ref l.num_ref)
          put_link db (record l { num_ref = n })
          unlock db
          pure s_ok)
        (do unlock db; pure error_db_already_connected)

  pub sql_conn : ConnParam → Act ℕ
  sql_conn p = do
    lock db
    l ← get_link db
    branch (not l.connected) (first_conn p) (second_conn p l)

  -- Execute(strSql, bNeedlock), behind its lock
  unfoldable pub run_query : Bytes → Act ℕ
  run_query sql = do
    l ← get_link db
    branch l.connected (call env (mysql_query db sql)) (pure error_not_connected)

  unfoldable pub execute : Bytes → Bool → Act ℕ
  unfolding run_query
  execute [] need_lock = pure error_invalid_parameter
  execute (c ∷ cs) true = do lock db; code ← run_query (c ∷ cs); unlock db; pure code
  execute (c ∷ cs) false = run_query (c ∷ cs)

  unfoldable pub execute_non_query : Bytes → Act ℕ
  unfolding execute
  execute_non_query sql = execute sql true

  unfoldable pub stored : Option (List Row) → ℕ × List Row
  stored none = (error_mysql_store_res, [])
  stored (some rows) = (s_ok, rows)

  unfoldable pub execute_query : Bytes → Act (ℕ × List Row)
  unfolding execute stored
  execute_query sql = do
    lock db
    code ← execute sql false
    branch (not (code == s_ok)) (do unlock db; pure (code, []))
        do result ← call_rows env (mysql_store_result db); unlock db; pure (stored result)

  -- The code, the row, and what is left: the end frees the result.
  unfoldable pub fetch_one_row : List Row → Act (ℕ × Row × List Row)
  fetch_one_row [] = do call env (mysql_free_result db); pure (error_mysql_fetch_failed, [], [])
  fetch_one_row (row ∷ rest) = pure (s_ok, row, rest)
