-- ===== src/Etl/Returns.antt =====
-- Returns of the steps of tagEtl.cpp behind the connections, and what they ask of the answers.
use tag_etl.Codes.{s_ok}
use tag_etl.Etl.{
  missed, match_loop, match_songs, sid_tag, log_path_in, get_logger_path, logger_at,
  initialize_logger, checked, checked_with, flush_var_tags, flush_if_needed, finish, transfer,
}
use tag_etl.MySqlHelper.Runs.Statements.{runs_rules}
use tag_etl.MySqlHelper.Runs.{
  Runs, Any, All, IsSome, IsSome-if, Runs-then, Runs-branch, Runs-pure-Any, Runs-call,
  Runs-lift-Any,
}
use tag_etl.Prelude.{
  ℕ, List, [], ◌∷◌, ◌++◌, some, ◌≡◌, ◌==◌, Bool, Bool-cases, Option-cases, inl, inr,
}
use tag_etl.Profile.Build.{Section}
use tag_etl.Profile.Load.{profile_of}
use tag_etl.Profile.Lookup.{is_empty}
use tag_etl.Refresh.Runs.{Runs-refresh_public_radio}
use tag_etl.Refresh.{RefreshParam, c_string_within}
use tag_etl.Search.Runs.{Runs-write_search_songs}
use tag_etl.SongLib.Connection.Runs.{
  Runs-load_profile, Runs-dis_conn_from_lib, get_profile_string_w-IsSome,
}
use tag_etl.SongLib.LocalLib.Runs.{
  HasNames, local_songs_sql, Runs-clean_local_var_tags_relation, Runs-store_stable_tags,
  Runs-store_var_tags, Runs-back_up_stable_tags,
}
use tag_etl.SongLib.LocalLib.{SongMap, SidTag, find_song, song_key}
use tag_etl.SongLib.WebLib.Runs.{
  HasTag, HasCount, counts_sql, Runs-clean_web_old_var_tags, Runs-need_flush_var_tags,
}
use tag_etl.SongLib.WebLib.{WebSong, songs_sql}
use tag_etl.System.{web, local, Act, Call, Env, Row, mysql_query, mysql_store_result}
use tag_etl.Text.{Bytes, codes}

-- What is asked of the answers: each file that is read loads, with an error or not; the rows of a query
-- have its columns, and no null column or text of blanks where the code cannot take one; the answer
-- of the radio ends within its buffer.
pub record IsServed (env : Env) : Type 0 where
  pub files : (calls : List Call) → IsSome (profile_of [] (env.file calls))
  pub songs :
      (volatile : Bool) (calls : List Call) (rows : List Row)
      → env.rows (mysql_store_result web ∷ mysql_query web (songs_sql volatile) ∷ calls) ≡ some rows
      → All HasTag rows
  pub counts :
      (calls : List Call) (rows : List Row)
      → env.rows (mysql_store_result web ∷ mysql_query web (counts_sql env) ∷ calls) ≡ some rows
      → All HasCount rows
  pub local_songs :
      (calls : List Call) (rows : List Row)
      → env.rows (mysql_store_result local ∷ mysql_query local (local_songs_sql env) ∷ calls)
        ≡ some rows
      → All HasNames rows
  pub answer : (calls : List Call) → IsSome (c_string_within 12 (env.received calls))

log_path_in-IsSome : (env : Env) (r : ℕ × List Section) → IsSome (log_path_in env r)
unfolding log_path_in
log_path_in-IsSome env (code, p) =
    IsSome-if (code == s_ok) _ (some (code, []))
      (get_profile_string_w-IsSome p (codes "SystemLog") (codes "errorlog") []) tt

module _ (env : Env) where
  Runs-missed : (s : WebSong) → Runs Any (missed env s)
  unfolding missed
  Runs-missed s = search (runs_rules, Runs-write_search_songs env) depth 20

  Runs-match_loop :
      (songs : SongMap) (code : ℕ) (m : List SidTag) (v : List WebSong)
      → Runs Any (match_loop env songs code m v)
  unfolding match_loop
  Runs-match_loop songs code m [] = Runs-pure-Any _
  Runs-match_loop songs code m (s ∷ rest) = elim (Bool-cases (is_empty s.singer_name)) [
    | inl e ↦ rw (e, match_loop) (Runs-match_loop songs code m rest)
    | inr e ↦ elim (Option-cases (find_song (song_key s.song_name s.singer_name) songs)) [
      | inl n ↦
          rw (e, n, match_loop)
            (Runs-then _ _ (Runs-missed s) λ code'. Runs-match_loop songs code' m rest)
      | inr (l, h) ↦ rw (e, h, match_loop) (Runs-match_loop songs code (m ++ sid_tag l s ∷ []) rest)
    ]
  ]

  Runs-match_songs :
      (v : List WebSong) (songs : SongMap) (m : List SidTag) → Runs Any (match_songs env v songs m)
  unfolding match_songs
  Runs-match_songs v songs m = Runs-match_loop songs 0 m v

  Runs-checked : (m k : Act ℕ) → Runs Any m → Runs Any k → Runs Any (checked env m k)
  unfolding checked
  Runs-checked m k hm hk = Runs-then m _ hm λ code.
      Runs-branch (code == s_ok) k _ hk (Runs-then _ _ (Runs-call env _) λ _. Runs-pure-Any code)

  pub Runs-checked_with :
      {A : Type 0} (m : Act (ℕ × A)) (k : A → Act ℕ)
      → Runs Any m
      → ((a : A) → Runs Any (k a))
      → Runs Any (checked_with env m k)
  unfolding checked_with
  Runs-checked_with m k hm hk = Runs-then m _ hm λ r.
      Runs-branch (r.0 == s_ok) (k r.1) _ (hk r.1)
        (Runs-then _ _ (Runs-call env _) λ _. Runs-pure-Any r.0)

  module _ (h : IsServed env) where
    Runs-logger_at : (r : ℕ × Bytes) → Runs Any (logger_at env r)
    unfolding logger_at
    Runs-logger_at (code, path) = search runs_rules depth 20

    pub Runs-initialize_logger : Runs Any (initialize_logger env)
    unfolding initialize_logger get_logger_path
    Runs-initialize_logger =
        Runs-then _ _
          (Runs-then _ _ (Runs-load_profile env h.files _ _)
            λ r. Runs-lift-Any _ (log_path_in-IsSome env r))
          Runs-logger_at

    Runs-flush_var_tags :
        (v : List WebSong) (songs : SongMap) → Runs Any (flush_var_tags env v songs)
    unfolding flush_var_tags
    Runs-flush_var_tags v songs = Runs-checked_with _ _ (Runs-match_songs v songs []) λ tags.
        Runs-checked _ _ (Runs-clean_local_var_tags_relation env) (
          Runs-checked _ _ (Runs-store_var_tags env tags)
            (Runs-checked _ _ (Runs-clean_web_old_var_tags env) (Runs-pure-Any s_ok)))

    Runs-flush_if_needed :
        (v : List WebSong) (songs : SongMap) → Runs Any (flush_if_needed env v songs)
    unfolding flush_if_needed
    Runs-flush_if_needed v songs =
        Runs-then _ _ (Runs-need_flush_var_tags env h.files h.counts)
          λ needed. Runs-branch needed _ _ (Runs-flush_var_tags v songs) (Runs-pure-Any s_ok)

    Runs-finish : (rp : RefreshParam) → IsSome rp.port → Runs Any (finish env rp)
    unfolding finish
    Runs-finish rp known = Runs-checked _ _ (Runs-back_up_stable_tags env) (
        Runs-checked _ _ (Runs-refresh_public_radio env h.answer rp known) (
          Runs-then _ _ (Runs-dis_conn_from_lib env web)
            λ _. Runs-then _ _ (Runs-dis_conn_from_lib env local) λ _. Runs-pure-Any s_ok))

    pub Runs-transfer :
        (rp : RefreshParam) (s v : List WebSong) (songs : SongMap)
        → IsSome rp.port
        → Runs Any (transfer env rp s v songs)
    unfolding transfer
    Runs-transfer rp s v songs known = Runs-checked_with _ _ (Runs-match_songs s songs []) λ tags.
        Runs-checked _ _ (Runs-store_stable_tags env tags) (
          Runs-then _ _ (Runs-flush_if_needed v songs)
            λ code. Runs-branch (code == s_ok) _ _ (Runs-finish rp known) (Runs-pure-Any code))
