-- ===== src/SongLib/LocalLib/Keeps.antt =====
-- What the methods of `CLocalLib` keep of the list of calls.
use tag_etl.MySqlHelper.Keeps.{Keeps-execute_query, Keeps-execute_non_query, Keeps-fetch_one_row}
use tag_etl.Prelude.{ℕ, Bool, false, List, [], ◌∷◌, ◌≡◌, refl, arith}
use tag_etl.SongLib.LocalLib.{
  SongMap, SidTag, local_song, add_song, local_rows, load_with, load_songs, logged_statement,
  store_sql, store_loop, store_tags, log_failure, store_stable_tags, store_var_tags,
  back_up_stable_tags,
}
use tag_etl.System.Keeps.{
  Keeps, Stable, Keeps-bind, Keeps-lift, Keeps-uninitialised, is_delete, keeps_rules,
}
use tag_etl.System.{local, Call, Env, Row, ◌>>=◌, lift, uninitialised, mysql_query}
use tag_etl.Text.{Bytes}

module _ (P : List Call → Type 0) (stable : Stable P) (env : Env) where
  Keeps-local_rows : (songs : SongMap) (rows : List Row) → Keeps P (local_rows env songs rows)
  unfolding local_rows ◌>>=◌ lift uninitialised
  Keeps-local_rows songs [] = search (keeps_rules, Keeps-fetch_one_row P stable env local) depth 20
  Keeps-local_rows songs (row ∷ rest) =
      Keeps-bind _ _ (Keeps-fetch_one_row P stable env local (row ∷ rest)) λ _.
        Keeps-bind _ _ (Keeps-uninitialised env) λ junk.
          Keeps-bind _ _ (Keeps-lift (local_song junk row))
            λ song. Keeps-local_rows (add_song song songs) rest

  Keeps-load_with : (songs : SongMap) (r : ℕ × List Row) → Keeps P (load_with env songs r)
  unfolding load_with
  Keeps-load_with songs (code, rows) = search (keeps_rules, Keeps-local_rows) depth 20

  pub Keeps-load_songs : (songs : SongMap) → Keeps P (load_songs env songs)
  unfolding load_songs
  Keeps-load_songs songs =
      search (keeps_rules, Keeps-load_with, Keeps-execute_query P stable env local) depth 20

  is_delete-local : (sql : Bytes) → is_delete (mysql_query local sql) ≡ false
  is_delete-local [] = refl
  is_delete-local (c ∷ cs) = ground arith

  pub Keeps-logged_statement : (sql : Bytes) → Keeps P (logged_statement env sql)
  unfolding logged_statement
  Keeps-logged_statement sql =
      search (keeps_rules, Keeps-execute_non_query P stable env local, is_delete-local) depth 20

  Keeps-store_loop : (b : Bool) (tags : List SidTag) → Keeps P (store_loop env b tags)
  unfolding store_loop ◌>>=◌
  Keeps-store_loop b [] = search keeps_rules
  Keeps-store_loop b (t ∷ rest) =
      Keeps-bind _ _
        (Keeps-execute_non_query P stable env local (store_sql b t)
          (is_delete-local (store_sql b t)))
        λ _. Keeps-store_loop b rest

  Keeps-store_tags : (tags : List SidTag) (b : Bool) → Keeps P (store_tags env tags b)
  unfolding store_tags
  Keeps-store_tags [] b = search keeps_rules
  Keeps-store_tags (t ∷ rest) b = search (keeps_rules, Keeps-store_loop) depth 20

  Keeps-log_failure : (code : ℕ) → Keeps P (log_failure env code)
  unfolding log_failure
  Keeps-log_failure code = search keeps_rules depth 20

  pub Keeps-store_stable_tags : (tags : List SidTag) → Keeps P (store_stable_tags env tags)
  unfolding store_stable_tags
  Keeps-store_stable_tags tags = search (keeps_rules, Keeps-store_tags, Keeps-log_failure) depth 20

  pub Keeps-store_var_tags : (tags : List SidTag) → Keeps P (store_var_tags env tags)
  unfolding store_var_tags
  Keeps-store_var_tags tags = search (keeps_rules, Keeps-store_tags, Keeps-log_failure) depth 20

  pub Keeps-back_up_stable_tags : Keeps P (back_up_stable_tags env)
  unfolding back_up_stable_tags
  Keeps-back_up_stable_tags =
      search (keeps_rules, Keeps-execute_non_query P stable env local) depth 20
