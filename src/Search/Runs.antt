-- ===== src/Search/Runs.antt =====
-- The methods of `CSearchFileGenerator` of search/searchFileGenerator.cpp return.
use tag_etl.Codes.{s_ok}
use tag_etl.MySqlHelper.Runs.Statements.{runs_rules}
use tag_etl.MySqlHelper.Runs.{Runs, Any, IsSome, IsSome-if, Runs-then, Runs-lift-Any}
use tag_etl.Prelude.{ℕ, List, [], some, ◌==◌}
use tag_etl.Profile.Build.{Section}
use tag_etl.Profile.Load.{profile_of}
use tag_etl.Search.{path_in, get_search_file_path, open_path, search_file_init, write_search_songs}
use tag_etl.SongLib.Connection.Runs.{Runs-load_profile, get_profile_string_w-IsSome}
use tag_etl.System.{Call, Env}
use tag_etl.Text.{Bytes, codes}

path_in-IsSome : (r : ℕ × List Section) → IsSome (path_in r)
unfolding path_in
path_in-IsSome (code, p) =
    IsSome-if (code == s_ok) _ (some (code, []))
      (get_profile_string_w-IsSome p (codes "SearchFile") (codes "searchFilePath") []) tt

module _ (env : Env) where
  pub Runs-write_search_songs : (s : Bytes) → Runs Any (write_search_songs env s)
  unfolding write_search_songs
  Runs-write_search_songs s = search runs_rules depth 20

  Runs-open_path : (r : ℕ × Bytes) → Runs Any (open_path env r)
  unfolding open_path
  Runs-open_path (code, path) = search runs_rules depth 20

  pub Runs-search_file_init :
      ((calls : List Call) → IsSome (profile_of [] (env.file calls)))
      → Runs Any (search_file_init env)
  unfolding search_file_init get_search_file_path
  Runs-search_file_init files =
      Runs-then _ _
        (Runs-then _ _ (Runs-load_profile env files _ _) λ r. Runs-lift-Any _ (path_in-IsSome r))
        Runs-open_path
