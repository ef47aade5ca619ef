-- ===== src/SongLib/LocalLib/Runs.antt =====
-- The methods of `CLocalLib` of songLib/localLib.cpp return.
use tag_etl.Codes.{s_ok}
use tag_etl.MySqlHelper.Runs.Statements.{
  Runs-execute_query, Runs-execute_non_query, Runs-fetch_one_row, runs_rules,
}
use tag_etl.MySqlHelper.Runs.{
  Runs, Any, All, IsSome, Runs-bind, Runs-then, Runs-branch, Runs-pure-Any, Runs-call,
  Runs-uninitialised, Runs-lift-Any,
}
use tag_etl.Prelude.{ℕ, Bool, true, false, List, [], ◌∷◌, Option, none, some, ◌≡◌, ◌≢◌, refl, ◌==◌}
use tag_etl.Profile.Trimming.Reference.{tirm-trim_both}
use tag_etl.SongLib.LocalLib.{
  LocalSong, SidTag, SongMap, add_song, trimmed_column, local_song, local_rows, load_with,
  load_songs, logged_statement, clean_local_var_tags_relation, store_loop, store_tags, log_failure,
  store_stable_tags, store_var_tags, back_up_stable_tags,
}
use tag_etl.SongLib.WebLib.{int_column}
use tag_etl.System.{local, Call, Env, Row, mysql_query, mysql_store_result}
use tag_etl.Text.Trim.{trim_both}
use tag_etl.Text.{Bytes, codes, is_blank}
use tag_etl.Utility.Reference.{trim-tirm, nonempty}

-- A null column, or a text with another byte than blanks.
abbrev pub HasByte : Option Bytes → Type 0
HasByte none = Unit
HasByte (some s) = trim_both is_blank s ≢ []

-- Three columns, with a name and a singer that can be trimmed.
abbrev pub HasNames : Row → Type 0
HasNames (sid ∷ title ∷ singer ∷ rest) = HasByte title × HasByte singer
HasNames row = ⊥

nonempty-IsSome : (s : Bytes) → s ≢ [] → IsSome (nonempty s)
nonempty-IsSome [] h = h refl
nonempty-IsSome (c ∷ cs) h = tt

trimmed_column-IsSome : (o : Option Bytes) → HasByte o → IsSome (trimmed_column o)
unfolding trimmed_column
trimmed_column-IsSome none h = tt
trimmed_column-IsSome (some s) h =
    rw (trim-tirm s, tirm-trim_both s) (nonempty-IsSome (trim_both is_blank s) h)

local_song-IsSome : (junk : ℕ) (row : Row) → HasNames row → IsSome (local_song junk row)
unfolding local_song
local_song-IsSome junk (sid ∷ title ∷ singer ∷ rest) h =
    both (trimmed_column title) (trimmed_column singer) (trimmed_column-IsSome title h.0)
      (trimmed_column-IsSome singer h.1)
  where
    both :
        (o o' : Option Bytes)
        → IsSome o
        → IsSome o'
        → IsSome {A = LocalSong} (elim o [
          | none ↦ none
          | some name ↦ elim o' [
            | none ↦ none
            | some by ↦
                some (record { sid = int_column junk sid; song_name = name; singer_name = by })
          ]
        ])
    both none o' h k = h
    both (some a) none h k = k
    both (some a) (some b) h k = tt
local_song-IsSome junk _ h = absurd h

module _ (env : Env) where
  Runs-local_rows :
      (songs : SongMap) (rows : List Row) → All HasNames rows → Runs Any (local_rows env songs rows)
  unfolding local_rows
  Runs-local_rows songs [] h = search runs_rules depth 20
  Runs-local_rows songs (row ∷ rest) h =
      Runs-then _ _ (Runs-fetch_one_row env local (row ∷ rest)) λ _.
        Runs-then _ _ (Runs-uninitialised env) λ junk.
          Runs-then _ _ (Runs-lift-Any _ (local_song-IsSome junk row h.0))
            λ song. Runs-local_rows (add_song song songs) rest h.1

  Runs-load_with :
      (songs : SongMap) (r : ℕ × List Row) → All HasNames r.1 → Runs Any (load_with env songs r)
  unfolding load_with
  Runs-load_with songs (code, rows) h =
      Runs-branch (code == s_ok) _ _
        (Runs-then _ _ (Runs-local_rows songs rows h) λ loaded. Runs-pure-Any _) (Runs-pure-Any _)

  abbrev pub local_songs_sql : Bytes
  local_songs_sql = codes "select song_id,song_name,singer_chinese_name from v_songsinfo"

  pub Runs-load_songs :
      ((calls : List Call) (rows : List Row)
        → env.rows (mysql_store_result local ∷ mysql_query local local_songs_sql ∷ calls)
          ≡ some rows
        → All HasNames rows)
      → Runs Any (load_songs env [])
  unfolding load_songs
  Runs-load_songs fit =
      Runs-bind _ _ (Runs-execute_query env local _ _ HasNames fit) λ r h. Runs-load_with [] r h

  Runs-logged_statement : (c : ℕ) (cs : Bytes) → Runs Any (logged_statement env (c ∷ cs))
  unfolding logged_statement
  Runs-logged_statement c cs = search runs_rules depth 20

  pub Runs-clean_local_var_tags_relation : Runs Any (clean_local_var_tags_relation env)
  unfolding clean_local_var_tags_relation
  Runs-clean_local_var_tags_relation = Runs-then _ _ (Runs-logged_statement _ _) λ code.
      Runs-branch (code == 0) _ _ (Runs-then _ _ (Runs-call env _) λ _. Runs-logged_statement _ _)
        (Runs-pure-Any code)

  Runs-store_loop : (stable : Bool) (tags : List SidTag) → Runs Any (store_loop env stable tags)
  unfolding store_loop
  Runs-store_loop stable [] = Runs-pure-Any tt
  Runs-store_loop true (t ∷ rest) =
      Runs-then _ _ (Runs-execute_non_query env local _ _) λ _. Runs-store_loop true rest
  Runs-store_loop false (t ∷ rest) =
      Runs-then _ _ (Runs-execute_non_query env local _ _) λ _. Runs-store_loop false rest

  Runs-store_tags : (tags : List SidTag) (stable : Bool) → Runs Any (store_tags env tags stable)
  unfolding store_tags
  Runs-store_tags [] stable = Runs-pure-Any _
  Runs-store_tags (t ∷ rest) stable =
      Runs-then _ _ (Runs-store_loop stable (t ∷ rest)) λ _. Runs-pure-Any s_ok

  Runs-log_failure : (code : ℕ) → Runs Any (log_failure env code)
  unfolding log_failure
  Runs-log_failure code = search runs_rules depth 20

  pub Runs-store_stable_tags : (tags : List SidTag) → Runs Any (store_stable_tags env tags)
  unfolding store_stable_tags
  Runs-store_stable_tags tags =
      Runs-then _ _ (Runs-store_tags tags true) λ code. Runs-log_failure code

  pub Runs-store_var_tags : (tags : List SidTag) → Runs Any (store_var_tags env tags)
  unfolding store_var_tags
  Runs-store_var_tags tags =
      Runs-then _ _ (Runs-store_tags tags false) λ code. Runs-log_failure code

  pub Runs-back_up_stable_tags : Runs Any (back_up_stable_tags env)
  unfolding back_up_stable_tags
  Runs-back_up_stable_tags = Runs-then _ _ (Runs-execute_non_query env local _ _) λ code.
      Runs-branch (code == 0) _ _ (Runs-execute_non_query env local _ _) (Runs-pure-Any code)
