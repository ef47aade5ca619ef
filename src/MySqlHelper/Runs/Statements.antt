-- ===== src/MySqlHelper/Runs/Statements.antt =====
-- Returns of the methods of `CMySqlHelper`.
use tag_etl.MySqlHelper.Connection.{IsIdle, Closed, sql_close-Closed}
use tag_etl.MySqlHelper.Frames.{Frames-sql_close}
use tag_etl.MySqlHelper.Queries.{
  execute_non_query-eq, execute_query-eq, query_result, result_of, after_query, statement_code,
  after_statement,
}
use tag_etl.MySqlHelper.{sql_close, destroy, execute_non_query, execute_query, fetch_one_row}
use tag_etl.Prelude.{
  ℕ, Bool, true, false, List, [], ◌∷◌, Option, none, some, ◌≡◌, refl, ◌==◌, Bool-cases, inl, inr,
  if◌then◌else◌,
}
use tag_etl.System.Frames.{Frames, Returns-Frames}
use tag_etl.System.{
  Db, web, local, Call, Env, World, Act, Row, Returns, Returns-map, link_of, pure, branch, get_link,
  call, ◌>>=◌, mysql_query, mysql_store_result, record_call,
}
use tag_etl.Text.{Bytes}
use tag_etl.MySqlHelper.Runs.{
  AreIdle, Runs, All, Any, Runs-bind, Runs-weaken, Runs-pure, Runs-lift, Runs-branch, Runs-unless,
  Runs-get_link, Runs-call, Runs-uninitialised, Runs-call_file, Runs-received_now, Runs-pure-Any,
  IsSome, IsSome-cases, IsSome-bind, IsSome-if, Runs-lift-Any, Runs-then,
}

module _ (env : Env) where
  -- The link that the action is about, and the other.
  pub pair_up :
      {A : Type 0} (db : Db) (m : Act A) (w : World)
      → Frames db m
      → AreIdle w
      → Returns (m w) (λ _ w'. IsIdle (link_of db w'))
      → Returns (m w) (λ a w'. Any a × AreIdle w')
  pair_up web m w f i h =
      Returns-map (λ a w'. IsIdle w'.web_link × (w'.local_link ≡ w.local_link)) _ (m w)
        (Returns-Frames web m w (λ _ w'. IsIdle w'.web_link) f h)
        (λ a w' r. (tt, (r.0, rw r.1 i.1)))
  pair_up local m w f i h =
      Returns-map (λ a w'. IsIdle w'.local_link × (w'.web_link ≡ w.web_link)) _ (m w)
        (Returns-Frames local m w (λ _ w'. IsIdle w'.local_link) f h)
        (λ a w' r. (tt, (rw r.1 i.0, r.0)))

  pub IsIdle-of : (db : Db) (w : World) → AreIdle w → IsIdle (link_of db w)
  IsIdle-of web w i = i.0
  IsIdle-of local w i = i.1

  Closed-IsIdle :
      (db : Db) (w w' : World) → Closed (link_of db w) (link_of db w') → IsIdle (link_of db w')
  Closed-IsIdle db w w' c = record { free = c.free; counted = rw c.users c.open_now }

  pub Runs-sql_close : (db : Db) → Runs Any (sql_close env db)
  Runs-sql_close db = record {
    at = λ w i. pair_up db (sql_close env db) w (Frames-sql_close env db) i (
        Returns-map (λ _ w'. Closed (link_of db w) (link_of db w')) _ (sql_close env db w)
          (sql_close-Closed env db w (IsIdle-of db w i)) (λ _ w' c. Closed-IsIdle db w w' c));
  }

  pub Runs-destroy : (db : Db) → Runs Any (destroy env db)
  unfolding destroy get_link call branch pure ◌>>=◌
  Runs-destroy db = record {
    at = λ w i. elim (Bool-cases (link_of db w).connected) [
      | inl e ↦ rw e (tt, i)
      | inr e ↦ rw e (tt, i)
    ];
  }

  idle_if : (b : Bool) (w w' : World) → AreIdle w → AreIdle w' → AreIdle (if b then w else w')
  idle_if true w w' h k = h
  idle_if false w w' h k = k

  after_statement-idle :
      (db : Db) (sql : Bytes) (w : World) → AreIdle w → AreIdle (after_statement db sql w)
  after_statement-idle db sql w i =
      idle_if (link_of db w).connected (record_call (mysql_query db sql) w) w i i

  pub Runs-execute_non_query :
      (db : Db) (c : ℕ) (cs : Bytes) → Runs Any (execute_non_query env db (c ∷ cs))
  Runs-execute_non_query db c cs = record {
    at = λ w i.
        rw (execute_non_query-eq env db c cs w (IsIdle-of db w i))
          (tt, after_statement-idle db (c ∷ cs) w i);
  }

  after_query-idle :
      (db : Db) (sql : Bytes) (w : World) → AreIdle w → AreIdle (after_query env db sql w)
  after_query-idle db sql w i =
      let i' = after_statement-idle db sql w i in
      idle_if (statement_code env db sql w == 0)
        (record_call (mysql_store_result db) (after_statement db sql w)) (after_statement db sql w)
        i' i'

  -- A query returns with rows that fit, given that the server's results for it do.
  module _ (db : Db) (c : ℕ) (cs : Bytes) (Fits : Row → Type 0)
      (fits : (calls : List Call) (rows : List Row)
        → env.rows (mysql_store_result db ∷ mysql_query db (c ∷ cs) ∷ calls) ≡ some rows
        → All Fits rows) where
    stored-Fits :
        (o : Option (List Row))
        → ((rows : List Row) → o ≡ some rows → All Fits rows)
        → All Fits (result_of o).1
    stored-Fits none h = tt
    stored-Fits (some rows) h = h rows refl

    query_result-Fits : (w : World) → All Fits (query_result env db (c ∷ cs) w).1
    query_result-Fits w = elim (Bool-cases (link_of db w).connected) [
      | inr off ↦ rw off tt
      | inl on ↦ rw on (elim (Bool-cases (env.code (mysql_query db (c ∷ cs) ∷ w.calls) == 0)) [
        | inl z ↦ rw z (stored-Fits _ (fits w.calls))
        | inr e ↦ rw e tt
      ])
    ]

    pub Runs-execute_query : Runs (λ r. All Fits r.1) (execute_query env db (c ∷ cs))
    Runs-execute_query = record {
      at = λ w i.
          rw (execute_query-eq env db c cs w (IsIdle-of db w i))
            (query_result-Fits w, after_query-idle db (c ∷ cs) w i);
    }

pub Runs-fetch_one_row :
    (env : Env) (db : Db) (rows : List Row) → Runs Any (fetch_one_row env db rows)
unfolding fetch_one_row
Runs-fetch_one_row env db [] = Runs-then _ _ (Runs-call env _) λ _. Runs-pure-Any _
Runs-fetch_one_row env db (row ∷ rest) = Runs-pure-Any _

pub ruleset runs_rules = (
  Runs-then, Runs-fetch_one_row, Runs-branch, Runs-pure-Any, Runs-call, Runs-uninitialised,
  Runs-execute_non_query,
)
