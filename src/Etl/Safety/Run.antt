-- ===== src/Etl/Safety/Run.antt =====
-- The whole run of `EtlDoWork` in tagEtl.cpp, step by step, for the guarantee of Etl/Safety.
use tag_etl.Codes.{s_ok}
use tag_etl.Etl.Keeps.{
  Keeps-initialize_logger, Keeps-search_file_init, Keeps-match_songs, Keeps-checked,
  Keeps-checked_with, Keeps-finish,
}
use tag_etl.Etl.{checked_with, flush_if_needed, finish, transfer, etl_do_work}
use tag_etl.Prelude.{false, List, [], ◌==◌}
use tag_etl.Refresh.{RefreshParam}
use tag_etl.SongLib.Connection.Keeps.{Keeps-connect_to_lib}
use tag_etl.SongLib.LocalLib.Keeps.{Keeps-load_songs, Keeps-store_stable_tags}
use tag_etl.SongLib.LocalLib.{SongMap, load_songs}
use tag_etl.SongLib.WebLib.Keeps.{Keeps-load_web_songs, Keeps-load_web_var_songs}
use tag_etl.SongLib.WebLib.{WebSong, load_web_songs, load_web_var_songs}
use tag_etl.System.Keeps.{Keeps, Upon, Keeps-pure, Keeps-branch, Keeps-bind}
use tag_etl.System.{web, local, Env, World, ◌>>=◌, pure, branch}
use tag_etl.Etl.Safety.{Guarded, Stable-Guarded, Keeps-flush_if_needed}

module _ (env : Env) where
  Keeps-finished :
      (rp : RefreshParam) (v : List WebSong) (songs : SongMap)
      → Keeps (Guarded env) (
          flush_if_needed env v songs >>= λ code. branch (code == s_ok) (finish env rp) (pure code))
  Keeps-finished rp v songs = Keeps-bind _ _ (Keeps-flush_if_needed env v songs) λ code.
      Keeps-branch (code == s_ok) _ _ (Keeps-finish (Guarded env) (Stable-Guarded env) env rp)
        (Keeps-pure code)

  Keeps-transfer :
      (rp : RefreshParam) (s v : List WebSong) (songs : SongMap)
      → Keeps (Guarded env) (transfer env rp s v songs)
  unfolding transfer
  Keeps-transfer rp s v songs =
      Keeps-checked_with (Guarded env) (Stable-Guarded env) env _ _
        (Keeps-match_songs (Guarded env) (Stable-Guarded env) env s songs [])
        λ tags.
          Keeps-checked (Guarded env) (Stable-Guarded env) env _ _
            (Keeps-store_stable_tags (Guarded env) (Stable-Guarded env) env tags)
            (Keeps-finished rp v songs)

  Keeps-loaded :
      (rp : RefreshParam)
      → Keeps (Guarded env) (
          checked_with env (load_web_songs env []) λ s.
            checked_with env
              (load_web_var_songs env [])
              λ v. checked_with env (load_songs env []) λ songs. transfer env rp s v songs)
  Keeps-loaded rp =
      Keeps-checked_with (Guarded env) (Stable-Guarded env) env _ _
        (Keeps-load_web_songs (Guarded env) (Stable-Guarded env) env [])
        λ s.
          Keeps-checked_with (Guarded env) (Stable-Guarded env) env _ _
            (Keeps-load_web_var_songs (Guarded env) (Stable-Guarded env) env [])
            λ v.
              Keeps-checked_with (Guarded env) (Stable-Guarded env) env _ _
                (Keeps-load_songs (Guarded env) (Stable-Guarded env) env [])
                λ songs. Keeps-transfer rp s v songs

  Keeps-etl_do_work : (rp : RefreshParam) → Keeps (Guarded env) (etl_do_work env rp)
  unfolding etl_do_work
  Keeps-etl_do_work rp =
      Keeps-bind _ _ (Keeps-initialize_logger (Guarded env) (Stable-Guarded env) env) λ code.
        Keeps-branch (code == 0) _ _
          (Keeps-checked (Guarded env) (Stable-Guarded env) env _ _
            (Keeps-search_file_init (Guarded env) (Stable-Guarded env) env)
            (Keeps-checked (Guarded env) (Stable-Guarded env) env _ _
              (Keeps-connect_to_lib (Guarded env) (Stable-Guarded env) env web _ false)
              (Keeps-checked (Guarded env) (Stable-Guarded env) env _ _
                (Keeps-connect_to_lib (Guarded env) (Stable-Guarded env) env local _ false)
                (Keeps-loaded rp))))
          (Keeps-pure code)

-- Whatever the servers answer and wherever the run stops, `EtlDoWork` deletes the collected tags of
-- the web library only after the server of the local library has confirmed the deletion of the old
-- relation, from calls for which this holds already. A run that ends in undefined behaviour or waits
-- for ever makes no claim.
pub etl_do_work-Guarded :
    (env : Env) (rp : RefreshParam) (w : World)
    → Guarded env w.calls
    → Upon (λ _. Guarded env) (etl_do_work env rp w)
etl_do_work-Guarded env rp w g = (Keeps-etl_do_work env rp).at w g
