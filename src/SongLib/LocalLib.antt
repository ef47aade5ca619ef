-- ===== src/SongLib/LocalLib.antt =====
-- `CLocalLib` of songLib/localLib.cpp. The map from keys to songs is an association list in the
-- order of insertion; std::map::insert keeps the first song of a key.
pub mod Map
pub mod Store
pub mod Keeps
pub mod Runs
use tag_etl.Codes.{s_ok, error_no_matched_song}
use tag_etl.MySqlHelper.{execute_query, execute_non_query, fetch_one_row}
use tag_etl.Prelude.{
  ℕ, Bool, true, false, List, [], ◌∷◌, ◌++◌, Option, none, some, ◌==◌, if◌then◌else◌,
}
use tag_etl.SongLib.WebLib.{int_column}
use tag_etl.System.{
  local, Env, Act, Row, info, error, ◌>>=◌, ◌>>◌, pure, lift, branch, unless_error, call,
  uninitialised, logged,
}
use tag_etl.Text.Converter.{uint2string}
use tag_etl.Text.{Bytes, bytes_eq, codes}
use tag_etl.Utility.{trim}

pub record LocalSong : Type 0 where
  pub sid : ℕ
  pub song_name : Bytes
  pub singer_name : Bytes

pub record SidTag : Type 0 where
  pub sid : ℕ
  pub tagid : ℕ

abbrev pub SongMap : Type 0
SongMap = List (Bytes × LocalSong)

-- mapSongs.find(key)
unfoldable pub find_song : Bytes → SongMap → Option LocalSong
unfolding bytes_eq
find_song key [] = none
find_song key ((k, s) ∷ rest) = if bytes_eq k key then some s else find_song key rest

-- mapNameKeySongs.insert(pair<string,LocalSong*>(key, song))
unfoldable pub insert_song : Bytes → LocalSong → SongMap → SongMap
unfolding bytes_eq
insert_song key song [] = (key, song) ∷ []
insert_song key song ((k, s) ∷ rest) =
    if bytes_eq k key then (k, s) ∷ rest else (k, s) ∷ insert_song key song rest

-- strSongName + "_" + strSingerName
unfoldable pub song_key : Bytes → Bytes → Bytes
song_key name singer = name ++ (b'_' ∷ singer)

unfoldable pub trimmed_column : Option Bytes → Option Bytes
unfolding trim
trimmed_column none = some []
trimmed_column (some s) = trim s

-- A column of blanks alone makes `trim` read out of bounds.
unfoldable pub local_song : ℕ → Row → Option LocalSong
unfolding int_column trimmed_column
local_song junk (sid ∷ title ∷ singer ∷ rest) = elim (trimmed_column title) [
  | none ↦ none
  | some name ↦ elim (trimmed_column singer) [
    | none ↦ none
    | some by ↦ some (record { sid = int_column junk sid; song_name = name; singer_name = by })
  ]
]
local_song junk row = none

abbrev pub add_song : LocalSong → SongMap → SongMap
add_song s songs = insert_song (song_key s.song_name s.singer_name) s songs

abbrev pub store_sql : Bool → SidTag → Bytes
store_sql stable t =
    codes (
      if stable
      then "insert into re_songs_music_tags(song_id,tag_id) \t\t\t\tvalues("
      else "insert into re_songs_music_vartags(song_id,tag_id) \t\t\t\tvalues(")
    ++ (uint2string t.sid ++ (b',' ∷ (uint2string t.tagid ++ (b')' ∷ []))))

module _ (env : Env) where
  unfoldable pub local_rows : SongMap → List Row → Act SongMap
  unfolding fetch_one_row
  local_rows songs [] = do fetch_one_row env local []; pure songs
  local_rows songs (row ∷ rest) = do
    fetch_one_row env local (row ∷ rest)
    junk ← uninitialised env
    song ← lift (local_song junk row)
    local_rows (add_song song songs) rest

  load_with : SongMap → ℕ × List Row → Act (ℕ × SongMap)
  load_with songs (code, rows) =
      branch (code == s_ok) (do loaded ← local_rows songs rows; pure (code, loaded))
        (pure (code, songs))

  unfoldable pub load_songs : SongMap → Act (ℕ × SongMap)
  unfolding load_with
  load_songs songs = do
    result ←
        execute_query env local
          (codes "select song_id,song_name,singer_chinese_name from v_songsinfo")
    load_with songs result

  -- if((uRet = ExecuteNonQuery(sql)) != 0) { LOGGER->error(…); return uRet; }
  unfoldable pub logged_statement : Bytes → Act ℕ
  logged_statement sql = do
    code ← execute_non_query env local sql
    branch (code == s_ok) (pure code) (do call env (logged error code); pure code)

  unfoldable pub clean_local_var_tags_relation : Act ℕ
  unfolding logged_statement
  clean_local_var_tags_relation =
      unless_error
        (logged_statement (
          codes
            "insert into re_songs_music_vartags_backup select song_id,tag_id,date_time from re_songs_music_vartags"))
        (do call env (logged info 0); logged_statement (codes "delete from re_songs_music_vartags"))

  -- The loop of StoreTags: the code of a statement is dropped.
  unfoldable pub store_loop : Bool → List SidTag → Act (Unit {0})
  store_loop stable [] = pure tt
  store_loop stable (t ∷ rest) = do
    execute_non_query env local (store_sql stable t)
    store_loop stable rest

  unfoldable pub store_tags : List SidTag → Bool → Act ℕ
  unfolding store_loop
  store_tags [] stable = pure error_no_matched_song
  store_tags (t ∷ rest) stable = do store_loop stable (t ∷ rest); pure s_ok

  unfoldable pub log_failure : ℕ → Act ℕ
  log_failure code = branch (code == s_ok) (pure code) (do call env (logged error code); pure code)

  unfoldable pub store_stable_tags : List SidTag → Act ℕ
  unfolding store_tags log_failure
  store_stable_tags tags = do code ← store_tags tags true; log_failure code

  unfoldable pub store_var_tags : List SidTag → Act ℕ
  unfolding store_tags log_failure
  store_var_tags tags = do code ← store_tags tags false; log_failure code

  unfoldable pub back_up_stable_tags : Act ℕ
  back_up_stable_tags =
      unless_error (execute_non_query env local (codes "delete from re_songs_music_tags_tmp")) (
        execute_non_query env local (
          codes
            "insert into re_songs_music_tags_tmp(song_id,tag_id) select song_id,tag_id from v_re_songs_music_tags"))
