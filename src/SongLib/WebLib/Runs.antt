-- ===== src/SongLib/WebLib/Runs.antt =====
-- The methods of `CWebLib` of songLib/webLib.cpp return.
use tag_etl.Codes.{s_ok}
use tag_etl.MySqlHelper.Runs.Statements.{
  Runs-execute_query, Runs-fetch_one_row, Runs-execute_non_query, runs_rules,
}
use tag_etl.MySqlHelper.Runs.{
  Runs, Any, All, IsSome, Runs-bind, Runs-branch, Runs-pure-Any, Runs-call, Runs-uninitialised,
  Runs-lift-Any,
}
use tag_etl.Prelude.{ℕ, Bool, true, false, List, [], ◌∷◌, ◌++◌, some, ◌≡◌, ◌==◌}
use tag_etl.Profile.Build.{Section}
use tag_etl.Profile.Load.{profile_of}
use tag_etl.Profile.Lookup.First.{get_prof_value-value_of}
use tag_etl.Profile.Lookup.{get_profile_int_w}
use tag_etl.SongLib.Connection.Runs.{Runs-load_profile}
use tag_etl.SongLib.WebLib.{
  WebSong, web_song, songs_sql, threshold_in, tag_count, web_rows, load_with, load_songs,
  load_web_songs, load_web_var_songs, clean_web_old_var_tags, flush_threshold, count_rows,
  count_with, need_flush_var_tags,
}
use tag_etl.System.{web, Call, Env, Row, mysql_query, mysql_store_result}
use tag_etl.Text.Number.{ℤ, ltb_ℤ}
use tag_etl.Text.{Bytes, codes}

-- Four columns, with a tag in the first.
abbrev pub HasTag : Row → Type 0
HasTag (some tag ∷ sid ∷ title ∷ artist ∷ rest) = Unit
HasTag row = ⊥

-- Two columns, with a count in the second.
abbrev pub HasCount : Row → Type 0
HasCount (tag ∷ some n ∷ rest) = Unit
HasCount row = ⊥

web_song-IsSome : (junk : ℕ) (row : Row) → HasTag row → IsSome (web_song junk row)
unfolding web_song
web_song-IsSome junk (some tag ∷ sid ∷ title ∷ artist ∷ rest) h = tt
web_song-IsSome junk _ h = absurd h

tag_count-IsSome : (row : Row) → HasCount row → IsSome (tag_count row)
unfolding tag_count
tag_count-IsSome (tag ∷ some n ∷ rest) h = tt
tag_count-IsSome _ h = absurd h

threshold_in-IsSome : (r : ℕ × List Section) → IsSome (threshold_in r)
unfolding threshold_in get_profile_int_w
threshold_in-IsSome (code, p) =
    rw
      (
        get_prof_value-value_of p (codes "FlushSetting") (codes "varTagsFlushThreshold") [],
        IsSome,
        threshold_in,
      )
      tt

module _ (env : Env) where
  Runs-web_rows :
      (songs : List WebSong) (rows : List Row)
      → All HasTag rows
      → Runs Any (web_rows env songs rows)
  unfolding web_rows
  Runs-web_rows songs [] h = search runs_rules depth 20
  Runs-web_rows songs (row ∷ rest) h =
      Runs-bind _ _ (Runs-fetch_one_row env web (row ∷ rest)) λ _ _.
        Runs-bind _ _ (Runs-uninitialised env) λ junk _.
          Runs-bind _ _ (Runs-lift-Any _ (web_song-IsSome junk row h.0))
            λ song _. Runs-web_rows (songs ++ song ∷ []) rest h.1

  Runs-load_with :
      (songs : List WebSong) (r : ℕ × List Row) → All HasTag r.1 → Runs Any (load_with env songs r)
  unfolding load_with
  Runs-load_with songs (code, rows) h =
      Runs-branch (code == s_ok) _ _
        (Runs-bind _ _ (Runs-web_rows songs rows h) λ loaded _. Runs-pure-Any _) (Runs-pure-Any _)

  -- The rows that the server has for the songs.
  module _
      (rows_fit : (volatile : Bool) (calls : List Call) (rows : List Row)
        → env.rows (mysql_store_result web ∷ mysql_query web (songs_sql volatile) ∷ calls)
          ≡ some rows
        → All HasTag rows) where
    Runs-load_songs :
        (songs : List WebSong) (volatile : Bool) → Runs Any (load_songs env songs volatile)
    unfolding load_songs
    Runs-load_songs songs true =
        Runs-bind _ _ (Runs-execute_query env web _ _ HasTag (rows_fit true))
          λ r h. Runs-load_with songs r h
    Runs-load_songs songs false =
        Runs-bind _ _ (Runs-execute_query env web _ _ HasTag (rows_fit false))
          λ r h. Runs-load_with songs r h

    pub Runs-load_web_songs : Runs Any (load_web_songs env [])
    unfolding load_web_songs
    Runs-load_web_songs = Runs-load_songs [] false

    pub Runs-load_web_var_songs : Runs Any (load_web_var_songs env [])
    unfolding load_web_var_songs
    Runs-load_web_var_songs = Runs-load_songs [] true

  pub Runs-clean_web_old_var_tags : Runs Any (clean_web_old_var_tags env)
  unfolding clean_web_old_var_tags
  Runs-clean_web_old_var_tags = Runs-execute_non_query env web _ _

  Runs-count_rows :
      (threshold : ℤ) (have : Bool) (rows : List Row)
      → All HasCount rows
      → Runs Any (count_rows env threshold have rows)
  unfolding count_rows
  Runs-count_rows threshold have [] h = search runs_rules depth 20
  Runs-count_rows threshold have (row ∷ rest) h =
      Runs-bind _ _ (Runs-fetch_one_row env web (row ∷ rest)) λ _ _.
        Runs-bind _ _ (Runs-lift-Any _ (tag_count-IsSome row h.0)) λ count _.
          Runs-branch (ltb_ℤ count threshold) _ _
            (Runs-bind _ _ (Runs-call env _) λ _ _. Runs-pure-Any false)
            (Runs-count_rows threshold true rest h.1)

  Runs-count_with :
      (threshold : ℤ) (r : ℕ × List Row) → All HasCount r.1 → Runs Any (count_with env threshold r)
  unfolding count_with
  Runs-count_with threshold (code, rows) h =
      Runs-branch (code == s_ok) _ _ (Runs-count_rows threshold false rows h)
        (Runs-bind _ _ (Runs-call env _) λ _ _. Runs-pure-Any false)

  abbrev pub counts_sql : Bytes
  counts_sql = codes "select tag_id,count(1) from  re_songs_vartags group by tag_id"

  module _ (files : (calls : List Call) → IsSome (profile_of [] (env.file calls)))
      (counts_fit : (calls : List Call) (rows : List Row)
        → env.rows (mysql_store_result web ∷ mysql_query web counts_sql ∷ calls) ≡ some rows
        → All HasCount rows) where
    pub Runs-need_flush_var_tags : Runs Any (need_flush_var_tags env)
    unfolding need_flush_var_tags flush_threshold
    Runs-need_flush_var_tags =
        Runs-bind _ _
          (Runs-bind _ _ (Runs-load_profile env files _ _)
            λ r _. Runs-lift-Any _ (threshold_in-IsSome r))
          λ threshold _.
            Runs-bind _ _ (Runs-execute_query env web _ _ HasCount counts_fit)
              λ r h. Runs-count_with threshold r h
