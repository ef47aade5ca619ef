-- ===== src/SongLib/WebLib.antt =====
-- `CWebLib` of songLib/webLib.cpp.
pub mod Counts
pub mod Keeps
pub mod Runs
use tag_etl.Codes.{s_ok}
use tag_etl.MySqlHelper.{execute_query, execute_non_query, fetch_one_row}
use tag_etl.Prelude.{
  ℕ, Bool, true, false, List, [], ◌∷◌, ◌++◌, Option, none, some, ◌==◌, if◌then◌else◌,
}
use tag_etl.Profile.Build.{Section}
use tag_etl.Profile.Load.{sys_config_pos, load_profile}
use tag_etl.Profile.Lookup.{get_profile_int_w}
use tag_etl.System.{
  web, Env, Act, Row, info, error, ◌>>=◌, ◌>>◌, pure, lift, branch, call, uninitialised, logged,
}
use tag_etl.Text.Number.{ℤ, pos, to_uint, atoi, ltb_ℤ}
use tag_etl.Text.{Bytes, codes}

pub record WebSong : Type 0 where
  pub tagid : ℕ
  pub sid : ℕ
  pub song_name : Bytes
  pub singer_name : Bytes

-- A null column leaves a text empty and a number as the memory was.
abbrev pub text_column : Option Bytes → Bytes
text_column none = []
text_column (some s) = s

unfoldable pub int_column : ℕ → Option Bytes → ℕ
unfolding to_uint atoi
int_column junk none = junk
int_column junk (some s) = to_uint (atoi s)

-- atoi of a null pointer, and a column that the row lacks, are undefined.
unfoldable pub web_song : ℕ → Row → Option WebSong
unfolding int_column
web_song junk (some tag ∷ sid ∷ title ∷ artist ∷ rest) = some (record {
  tagid = to_uint (atoi tag);
  sid = int_column junk sid;
  song_name = text_column title;
  singer_name = text_column artist;
})
web_song junk row = none

abbrev pub songs_sql : Bool → Bytes
songs_sql true = codes "select tag_id, sid, title, artist from re_songs_vartags"
songs_sql false = codes "select tag_id, sid, title, artist from re_songs_tags"

abbrev pub default_flush_threshold : ℤ
default_flush_threshold = pos 500

-- The first error sets the default, and the second read overwrites it only where it succeeds.
threshold_in : ℕ × List Section → Option ℤ
threshold_in (code, p) =
    elim (get_profile_int_w p (codes "FlushSetting") (codes "varTagsFlushThreshold")
      (if code == s_ok then pos 0 else default_flush_threshold)) [
        | none ↦ none
        | some (code', value) ↦ some (if code' == s_ok then value else default_flush_threshold)
      ]

-- The count of a row; a null one is undefined.
unfoldable pub tag_count : Row → Option ℤ
unfolding atoi
tag_count (tag ∷ some n ∷ rest) = some (atoi n)
tag_count row = none

module _ (env : Env) where
  -- while(FetchOneRow(…) == 0)
  unfoldable pub web_rows : List WebSong → List Row → Act (List WebSong)
  unfolding fetch_one_row
  web_rows songs [] = do fetch_one_row env web []; pure songs
  web_rows songs (row ∷ rest) = do
    fetch_one_row env web (row ∷ rest)
    junk ← uninitialised env
    song ← lift (web_song junk row)
    web_rows (songs ++ song ∷ []) rest

  load_with : List WebSong → ℕ × List Row → Act (ℕ × List WebSong)
  load_with songs (code, rows) =
      branch (code == s_ok) (do loaded ← web_rows songs rows; pure (code, loaded))
        (pure (code, songs))

  -- LoadSongs, which LoadWebSongs and LoadWebVarSongs call
  unfoldable pub load_songs : List WebSong → Bool → Act (ℕ × List WebSong)
  unfolding load_with
  load_songs songs volatile = do
    result ← execute_query env web (songs_sql volatile)
    load_with songs result

  unfoldable pub load_web_songs : List WebSong → Act (ℕ × List WebSong)
  unfolding load_songs
  load_web_songs songs = load_songs songs false

  unfoldable pub load_web_var_songs : List WebSong → Act (ℕ × List WebSong)
  unfolding load_songs
  load_web_var_songs songs = load_songs songs true

  unfoldable pub clean_web_old_var_tags : Act ℕ
  clean_web_old_var_tags = execute_non_query env web (codes "delete from re_songs_vartags")

  unfoldable pub flush_threshold : Act ℤ
  unfolding load_profile threshold_in
  flush_threshold = do loaded ← load_profile env [] sys_config_pos; lift (threshold_in loaded)

  -- while(FetchOneRow(…) == 0): the first count below the threshold answers false at once. The flag
  -- is bHaveTagsData.
  unfoldable pub count_rows : ℤ → Bool → List Row → Act Bool
  unfolding fetch_one_row tag_count
  count_rows threshold have_data [] = do
    fetch_one_row env web []
    branch have_data (pure true) (do call env (logged info 0); pure false)
  count_rows threshold have_data (row ∷ rest) = do
    fetch_one_row env web (row ∷ rest)
    count ← lift (tag_count row)
    branch (ltb_ℤ count threshold) (do call env (logged info 0); pure false)
        (count_rows threshold true rest)

  count_with : ℤ → ℕ × List Row → Act Bool
  unfolding count_rows
  count_with threshold (code, rows) =
      branch (code == s_ok) (count_rows threshold false rows)
        (do call env (logged error code); pure false)

  unfoldable pub need_flush_var_tags : Act Bool
  unfolding flush_threshold count_with
  need_flush_var_tags = do
    threshold ← flush_threshold
    result ←
        execute_query env web
          (codes "select tag_id,count(1) from  re_songs_vartags group by tag_id")
    count_with threshold result
