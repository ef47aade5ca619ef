-- ===== src/Search.antt =====
-- `CSearchFileGenerator` of search/searchFileGenerator.cpp: the file of songs that were not found.
-- An answer other than 0 to a write stands for an exception of the stream.
pub mod Runs
use tag_etl.Codes.{s_ok, error_write_search_song}
use tag_etl.Prelude.{ℕ, List, [], Option, ◌==◌, if◌then◌else◌}
use tag_etl.Profile.Build.{Section}
use tag_etl.Profile.Load.{sys_config_pos, load_profile}
use tag_etl.Profile.Lookup.{get_profile_string_w}
use tag_etl.System.{Env, Act, ◌>>=◌, ◌>>◌, pure, lift, branch, call, open_search, write_search}
use tag_etl.Text.{Bytes, codes}

pub path_in : ℕ × List Section → Option (ℕ × Bytes)
path_in (code, p) =
    if code == s_ok
    then get_profile_string_w p (codes "SearchFile") (codes "searchFilePath") []
    else Option.some (code, [])

module _ (env : Env) where
  unfoldable pub get_search_file_path : Act (ℕ × Bytes)
  unfolding path_in
  get_search_file_path = do loaded ← load_profile env [] sys_config_pos; lift (path_in loaded)

  unfoldable pub open_path : ℕ × Bytes → Act ℕ
  open_path (code, path) =
      branch (code == s_ok) (do call env (open_search path); pure code) (pure code)

  -- Whether the file opens is not looked at.
  unfoldable pub search_file_init : Act ℕ
  unfolding get_search_file_path open_path
  search_file_init = do path ← get_search_file_path; open_path path

  unfoldable pub write_search_songs : Bytes → Act ℕ
  write_search_songs song = do
    thrown ← call env (write_search song)
    pure (if thrown == 0 then s_ok else error_write_search_song)
