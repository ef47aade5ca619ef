-- ===== src/Etl.antt =====
-- `CWebTagEtl` and `main` of tagEtl.cpp: songs of the web library are looked up in the local one by
-- name and singer, the matches are stored as tags, the others are written to the search file.
pub mod Matching
pub mod Keeps
pub mod Returns
pub mod Ends
pub mod Unread
pub mod Outcome
pub mod Safety
use tag_etl.Codes.{s_ok}
use tag_etl.Prelude.{ℕ, true, false, List, [], ◌∷◌, ◌++◌, Option, none, some, ◌==◌, if◌then◌else◌}
use tag_etl.Profile.Build.{Section}
use tag_etl.Profile.Load.{sys_config_pos, load_profile}
use tag_etl.Profile.Lookup.{get_profile_string_w, is_empty}
use tag_etl.Refresh.{RefreshParam, refresh_public_radio, get_refresh_setting}
use tag_etl.Search.{search_file_init, write_search_songs}
use tag_etl.SongLib.Connection.{connect_to_lib, dis_conn_from_lib, destroy_lib}
use tag_etl.SongLib.LocalLib
use tag_etl.SongLib.LocalLib.{
  SongMap, LocalSong, SidTag, find_song, song_key, clean_local_var_tags_relation, store_stable_tags,
  store_var_tags, back_up_stable_tags,
}
use tag_etl.SongLib.WebLib.{
  WebSong, load_web_songs, load_web_var_songs, clean_web_old_var_tags, need_flush_var_tags,
}
use tag_etl.System.{
  Env, Act, info, error, web, local, ◌>>=◌, ◌>>◌, pure, lift, branch, unless_error, call, logged,
  init_logger,
}
use tag_etl.Text.{Bytes, codes}

-- strSongName + "\t" + strSingerName
unfoldable pub search_key : WebSong → Bytes
search_key s = s.song_name ++ (b'\t' ∷ s.singer_name)

abbrev pub sid_tag : LocalSong → WebSong → SidTag
sid_tag l s = record { sid = l.sid; tagid = s.tagid }

module _ (env : Env) where
  -- a song that is not found
  missed : WebSong → Act ℕ
  missed s = do
    code ← write_search_songs env (search_key s)
    branch (code == s_ok) (pure code) (do call env (logged info code); pure code)

  -- The loop; uRet keeps the code of the last write.
  unfoldable pub match_loop : SongMap → ℕ → List SidTag → List WebSong → Act (ℕ × List SidTag)
  unfolding missed
  match_loop songs code matched [] = pure (code, matched)
  match_loop songs code matched (s ∷ rest) = elim (is_empty s.singer_name) [
    | true ↦ match_loop songs code matched rest
    | false ↦ elim (find_song (song_key s.song_name s.singer_name) songs) [
      | none ↦ missed s >>= λ code'. match_loop songs code' matched rest
      | some l ↦ match_loop songs code (matched ++ sid_tag l s ∷ []) rest
    ]
  ]

  unfoldable pub match_songs : List WebSong → SongMap → List SidTag → Act (ℕ × List SidTag)
  unfolding match_loop
  match_songs vecp songs matched = match_loop songs 0 matched vecp

  pub log_path_in : ℕ × List Section → Option (ℕ × Bytes)
  log_path_in (code, p) =
      if code == s_ok
      then get_profile_string_w p (codes "SystemLog") (codes "errorlog") []
      else some (code, [])

  pub get_logger_path : Act (ℕ × Bytes)
  unfolding log_path_in
  get_logger_path = do loaded ← load_profile env [] sys_config_pos; lift (log_path_in loaded)

  pub logger_at : ℕ × Bytes → Act ℕ
  logger_at (code, path) = branch (code == s_ok) (call env (init_logger path)) (pure code)

  pub initialize_logger : Act ℕ
  unfolding get_logger_path logger_at
  initialize_logger = do path ← get_logger_path; logger_at path

  -- if((uRet = m) != 0) { LOGGER->error(…); return uRet; } k
  unfoldable pub checked : Act ℕ → Act ℕ → Act ℕ
  checked m k = do code ← m; branch (code == s_ok) k (do call env (logged error code); pure code)

  pub checked_with : {A : Type 0} → Act (ℕ × A) → (A → Act ℕ) → Act ℕ
  checked_with m k = do
    r ← m
    branch (r.0 == s_ok) (k r.1) (do call env (logged error r.0); pure r.0)

  -- if(m_webLib.NeedFlushVarTags()) { … }
  pub flush_var_tags : List WebSong → SongMap → Act ℕ
  unfolding checked checked_with
  flush_var_tags var_songs songs = checked_with (match_songs var_songs songs []) λ tags.
      checked (clean_local_var_tags_relation env)
        (checked (store_var_tags env tags) (checked (clean_web_old_var_tags env) (pure s_ok)))

  pub flush_if_needed : List WebSong → SongMap → Act ℕ
  unfolding flush_var_tags
  flush_if_needed var_songs songs = do
    needed ← need_flush_var_tags env
    branch needed (flush_var_tags var_songs songs) (pure s_ok)

  pub finish : RefreshParam → Act ℕ
  unfolding checked
  finish rp = checked (back_up_stable_tags env) (
      checked (refresh_public_radio env rp)
        (do dis_conn_from_lib env web false; dis_conn_from_lib env local false; pure s_ok))

  -- behind the loading of songs
  pub transfer : RefreshParam → List WebSong → List WebSong → SongMap → Act ℕ
  unfolding checked checked_with flush_if_needed finish
  transfer rp web_songs var_songs songs = checked_with (match_songs web_songs songs []) λ tags.
      checked (store_stable_tags env tags)
        (do code ← flush_if_needed var_songs songs; branch (code == s_ok) (finish rp) (pure code))

  pub etl_do_work : RefreshParam → Act ℕ
  unfolding initialize_logger checked checked_with transfer
  etl_do_work rp = unless_error initialize_logger (
      checked (search_file_init env) (
        checked (connect_to_lib env web (codes "WebMusic") false) (
          checked (connect_to_lib env local (codes "LocalMusic") false) (
            checked_with (load_web_songs env []) λ web_songs.
              checked_with (load_web_var_songs env []) λ var_songs.
                checked_with (LocalLib.load_songs env [])
                  λ songs. transfer rp web_songs var_songs songs))))

  -- main: CRefresher reads its settings when the object is made; the members go in the reverse order.
  pub run_main : RefreshParam → Act ℕ
  unfolding etl_do_work
  run_main uninitialised = do
    setting ← get_refresh_setting env uninitialised
    code ← etl_do_work setting.1
    destroy_lib env local
    destroy_lib env web
    pure code
