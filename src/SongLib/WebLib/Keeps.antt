-- ===== src/SongLib/WebLib/Keeps.antt =====
-- What the methods of `CWebLib` keep of the list of calls.
use tag_etl.MySqlHelper.Keeps.{Keeps-execute_query, Keeps-fetch_one_row}
use tag_etl.Prelude.{ℕ, Bool, true, false, List, [], ◌∷◌, ◌++◌}
use tag_etl.SongLib.Connection.Keeps.{Keeps-load_profile}
use tag_etl.SongLib.WebLib.{
  WebSong, web_song, tag_count, web_rows, load_with, load_songs, load_web_songs, load_web_var_songs,
  flush_threshold, count_rows, count_with, need_flush_var_tags,
}
use tag_etl.System.Keeps.{
  Keeps, Stable, Keeps-bind, Keeps-branch, Keeps-lift, Keeps-uninitialised, keeps_rules,
}
use tag_etl.System.{
  web, Call, Env, Row, ◌>>=◌, ◌>>◌, pure, call, lift, branch, uninitialised, logged, info,
}
use tag_etl.Text.Number.{ℤ, ltb_ℤ}

module _ (P : List Call → Type 0) (stable : Stable P) (env : Env) where
  Keeps-web_rows : (songs : List WebSong) (rows : List Row) → Keeps P (web_rows env songs rows)
  unfolding web_rows ◌>>=◌ lift uninitialised
  Keeps-web_rows songs [] = search (keeps_rules, Keeps-fetch_one_row P stable env web) depth 20
  Keeps-web_rows songs (row ∷ rest) =
      Keeps-bind _ _ (Keeps-fetch_one_row P stable env web (row ∷ rest)) λ _.
        Keeps-bind _ _ (Keeps-uninitialised env) λ junk.
          Keeps-bind _ _ (Keeps-lift (web_song junk row))
            λ song. Keeps-web_rows (songs ++ song ∷ []) rest

  Keeps-load_with : (songs : List WebSong) (r : ℕ × List Row) → Keeps P (load_with env songs r)
  unfolding load_with
  Keeps-load_with songs (code, rows) = search (keeps_rules, Keeps-web_rows) depth 20

  Keeps-load_songs : (songs : List WebSong) (b : Bool) → Keeps P (load_songs env songs b)
  unfolding load_songs
  Keeps-load_songs songs true =
      search (keeps_rules, Keeps-load_with, Keeps-execute_query P stable env web) depth 20
  Keeps-load_songs songs false =
      search (keeps_rules, Keeps-load_with, Keeps-execute_query P stable env web) depth 20

  pub Keeps-load_web_songs : (songs : List WebSong) → Keeps P (load_web_songs env songs)
  unfolding load_web_songs
  Keeps-load_web_songs songs = Keeps-load_songs songs false

  pub Keeps-load_web_var_songs : (songs : List WebSong) → Keeps P (load_web_var_songs env songs)
  unfolding load_web_var_songs
  Keeps-load_web_var_songs songs = Keeps-load_songs songs true

  Keeps-flush_threshold : Keeps P (flush_threshold env)
  unfolding flush_threshold
  Keeps-flush_threshold = search (keeps_rules, Keeps-load_profile P stable env) depth 20

  Keeps-below : Keeps P (call env (logged info 0) >> pure false)
  Keeps-below = search keeps_rules depth 20

  Keeps-count_rows : (t : ℤ) (b : Bool) (rows : List Row) → Keeps P (count_rows env t b rows)
  unfolding count_rows ◌>>=◌ lift branch
  Keeps-count_rows t b [] = search (keeps_rules, Keeps-fetch_one_row P stable env web) depth 20
  Keeps-count_rows t b (row ∷ rest) =
      Keeps-bind _ _ (Keeps-fetch_one_row P stable env web (row ∷ rest)) λ _.
        Keeps-bind _ _ (Keeps-lift (tag_count row))
          λ n. Keeps-branch (ltb_ℤ n t) _ _ Keeps-below (Keeps-count_rows t true rest)

  Keeps-count_with : (t : ℤ) (r : ℕ × List Row) → Keeps P (count_with env t r)
  unfolding count_with
  Keeps-count_with t (code, rows) = search (keeps_rules, Keeps-count_rows) depth 20

  pub Keeps-need_flush_var_tags : Keeps P (need_flush_var_tags env)
  unfolding need_flush_var_tags
  Keeps-need_flush_var_tags =
      search
        (keeps_rules, Keeps-flush_threshold, Keeps-count_with, Keeps-execute_query P stable env web)
        depth 20
