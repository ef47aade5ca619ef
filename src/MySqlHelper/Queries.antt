-- ===== src/MySqlHelper/Queries.antt =====
-- The statements of `CMySqlHelper`: each takes the lock, makes its calls and gives the lock back.
use tag_etl.Codes.{error_not_connected, error_mysql_store_res}
use tag_etl.Prelude.{ℕ, List, [], ◌∷◌, Option, none, some, ◌≡◌, refl, arith, ◌==◌, if◌then◌else◌}
use tag_etl.MySqlHelper.Connection.{IsIdle, IsIdle-cases}
use tag_etl.MySqlHelper.{execute_non_query, execute_query, stored}
use tag_etl.System.{
  ◌>>=◌, Db, web, local, Env, World, Row, link_of, record_call, mysql_query, mysql_store_result,
}
use tag_etl.Text.{Bytes}

-- The outcome of one statement: the server's code, or ERROR_NOT_CONNECTED with no call made.
abbrev pub statement_code : Env → Db → Bytes → World → ℕ
statement_code env db sql w =
    if (link_of db w).connected
    then env.code (mysql_query db sql ∷ w.calls)
    else error_not_connected

abbrev pub after_statement : Db → Bytes → World → World
after_statement db sql w =
    if (link_of db w).connected then record_call (mysql_query db sql) w else w

abbrev pub after_query : Env → Db → Bytes → World → World
after_query env db sql w =
    let w' = after_statement db sql w in
    if statement_code env db sql w == 0 then record_call (mysql_store_result db) w' else w'

-- A null result, of a statement with no error, is an error of its own.
abbrev pub result_of : Option (List Row) → ℕ × List Row
result_of none = (error_mysql_store_res, [])
result_of (some rows) = (0, rows)

stored-result_of : (env : Env) (db : Db) (o : Option (List Row)) → stored env db o ≡ result_of o
unfolding stored
stored-result_of env db none = refl
stored-result_of env db (some rows) = refl

abbrev pub query_result : Env → Db → Bytes → World → ℕ × List Row
query_result env db sql w =
    if statement_code env db sql w == 0
    then result_of (env.rows (mysql_store_result db ∷ (after_statement db sql w).calls))
    else (statement_code env db sql w, [])

-- `ExecuteNonQuery` of a text returns from an idle link and leaves it as it was. It sends the text
-- once if the object is connected, and nothing if not; its code is the server's, or
-- ERROR_NOT_CONNECTED.
pub execute_non_query-eq :
    (env : Env) (db : Db) (c : ℕ) (cs : Bytes) (w : World)
    → IsIdle (link_of db w)
    → execute_non_query env db (c ∷ cs) w
      ≡ some (statement_code env db (c ∷ cs) w, after_statement db (c ∷ cs) w)
unfolding execute_non_query ◌>>=◌
execute_non_query-eq env web c cs =
    IsIdle-cases
      (λ w.
        execute_non_query env web (c ∷ cs) w
        ≡ some (statement_code env web (c ∷ cs) w, after_statement web (c ∷ cs) w))
      web (λ key cl w. refl) (λ n key cl w. refl)
execute_non_query-eq env local c cs =
    IsIdle-cases
      (λ w.
        execute_non_query env local (c ∷ cs) w
        ≡ some (statement_code env local (c ∷ cs) w, after_statement local (c ∷ cs) w))
      local (λ key cl w. refl) (λ n key cl w. refl)

-- `ExecuteQuery` of a text returns from an idle link and leaves it as it was. It asks for the result
-- only if the statement had no error, and a null result is ERROR_MYSQL_STORE_RES.
pub execute_query-eq :
    (env : Env) (db : Db) (c : ℕ) (cs : Bytes) (w : World)
    → IsIdle (link_of db w)
    → execute_query env db (c ∷ cs) w
      ≡ some (query_result env db (c ∷ cs) w, after_query env db (c ∷ cs) w)
unfolding execute_query ◌>>=◌
execute_query-eq env web c cs =
    IsIdle-cases
      (λ w.
        execute_query env web (c ∷ cs) w
        ≡ some (query_result env web (c ∷ cs) w, after_query env web (c ∷ cs) w))
      web (λ key cl w. refl)
      (λ n key cl w.
        let calls = mysql_query web (c ∷ cs) ∷ w.calls in
        ground (arith, stored-result_of env web (env.rows (mysql_store_result web ∷ calls))))
execute_query-eq env local c cs =
    IsIdle-cases
      (λ w.
        execute_query env local (c ∷ cs) w
        ≡ some (query_result env local (c ∷ cs) w, after_query env local (c ∷ cs) w))
      local (λ key cl w. refl)
      (λ n key cl w.
        let calls = mysql_query local (c ∷ cs) ∷ w.calls in
        ground (arith, stored-result_of env local (env.rows (mysql_store_result local ∷ calls))))
