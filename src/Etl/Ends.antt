-- ===== src/Etl/Ends.antt =====
-- The run of tagEtl.cpp from its start to its end.
use tag_etl.Codes.{s_ok}
use tag_etl.Etl.{
  get_logger_path, logger_at, initialize_logger, checked, checked_with, transfer, etl_do_work,
  run_main,
}
use tag_etl.MySqlHelper.Runs.{Runs, Any, AreIdle, IsSome, Runs-then, Runs-pure-Any, Runs-call}
use tag_etl.MySqlHelper.Runs.Room.{
  Starts, Rooms, RoomOf, Anywhere, Runs-Starts, Starts-framed, Starts-both, Starts-branch,
  Starts-bind,
}
use tag_etl.Profile.Load.{load_profile}
use tag_etl.Refresh.{get_refresh_setting}
use tag_etl.Search.{get_search_file_path, open_path, search_file_init}
use tag_etl.SongLib.Connection.{connect_to_lib}
use tag_etl.SongLib.LocalLib.{load_songs}
use tag_etl.SongLib.WebLib.{load_web_songs, load_web_var_songs}
use tag_etl.System.Frames.{Frames, Frames-bind, frames_rules}
use tag_etl.System.{Db}
use tag_etl.Prelude.{false, ℕ, List, [], ◌==◌}
use tag_etl.Refresh.Runs.{Runs-get_refresh_setting, port_in}
use tag_etl.Refresh.{RefreshParam}
use tag_etl.Search.Runs.{Runs-search_file_init}
use tag_etl.SongLib.Connection.Runs.{Starts-connect_to_lib, Frames-connect_to_lib, Runs-destroy_lib}
use tag_etl.SongLib.LocalLib.Runs.{Runs-load_songs}
use tag_etl.SongLib.WebLib.Runs.{Runs-load_web_songs, Runs-load_web_var_songs}
use tag_etl.System.{web, local, Act, Call, Env, World, Returns, Returns-map}
use tag_etl.Text.{codes}
use tag_etl.Etl.Returns.{IsServed, Runs-initialize_logger, Runs-transfer, Runs-checked_with}

module _ (env : Env) where
  module _ (h : IsServed env) where
    -- The steps before the connections touch neither link.
    Frames-initialize_logger : (db : Db) → Frames db (initialize_logger env)
    unfolding initialize_logger get_logger_path logger_at load_profile
    Frames-initialize_logger db =
        Frames-bind db _ _ (search frames_rules depth 20) λ r. search frames_rules depth 20

    Frames-search_file_init : (db : Db) → Frames db (search_file_init env)
    unfolding search_file_init get_search_file_path open_path load_profile
    Frames-search_file_init db =
        Frames-bind db _ _ (search frames_rules depth 20) λ r. search frames_rules depth 20

    Starts-checked :
        (P P' : World → Type 0) (m k : Act ℕ)
        → Starts P P' Any m
        → Starts P' Anywhere Any k
        → Starts P Anywhere Any (checked env m k)
    unfolding checked
    Starts-checked P P' m k hm hk = Starts-bind P P' Anywhere m _ hm λ code _.
        Starts-branch P' Anywhere (code == s_ok) k _ hk
          (Runs-Starts P' _ (Runs-then _ _ (Runs-call env _) λ _. Runs-pure-Any code))

    Runs-loaded :
        (rp : RefreshParam)
        → IsSome rp.port
        → Runs Any (
            checked_with env (load_web_songs env []) λ s.
              checked_with env
                (load_web_var_songs env [])
                λ v. checked_with env (load_songs env []) λ songs. transfer env rp s v songs)
    Runs-loaded rp known = Runs-checked_with env _ _ (Runs-load_web_songs env h.songs) λ s.
        Runs-checked_with env _ _ (Runs-load_web_var_songs env h.songs) λ v.
          Runs-checked_with env _ _ (Runs-load_songs env h.local_songs)
            λ songs. Runs-transfer env h rp s v songs known

    pub Starts-etl_do_work :
        (rp : RefreshParam) → IsSome rp.port → Starts Rooms Anywhere Any (etl_do_work env rp)
    unfolding etl_do_work
    Starts-etl_do_work rp known =
        Starts-bind Rooms Rooms Anywhere _ _
          (Starts-both _ (Frames-initialize_logger web) (Frames-initialize_logger local)
            (Runs-initialize_logger env h))
          λ code _.
            Starts-branch Rooms Anywhere (code == 0) _ _
              (Starts-checked Rooms Rooms _ _
                (Starts-both _ (Frames-search_file_init web) (Frames-search_file_init local)
                  (Runs-search_file_init env h.files))
                (Starts-checked Rooms (RoomOf local) _ _ connect_web (
                  Starts-checked (RoomOf local) Anywhere _ _
                    (Starts-connect_to_lib env h.files local _)
                    (Runs-Starts Anywhere _ (Runs-loaded rp known)))))
              (Runs-Starts Rooms _ (Runs-pure-Any code))
      where
        connect_web :
            Starts Rooms (RoomOf local) Any (connect_to_lib env web (codes "WebMusic") false)
        connect_web =
            Starts-framed Rooms web _ (λ w r. r.1) (Frames-connect_to_lib env h.files web _)
              (record {
                at = λ w i r. (Starts-connect_to_lib env h.files web (codes "WebMusic")).at w i r.0;
              })

    Frames-get_refresh_setting :
        (rp : RefreshParam) (db : Db) → Frames db (get_refresh_setting env rp)
    unfolding get_refresh_setting load_profile
    Frames-get_refresh_setting rp db = search frames_rules depth 20

    Starts-run_main :
        (rp : RefreshParam)
        → ((calls : List Call) → IsSome (port_in rp (env.file calls)))
        → Starts Rooms Anywhere Any (run_main env rp)
    unfolding run_main
    Starts-run_main rp ports =
        Starts-bind Rooms Rooms Anywhere _ _
          (Starts-both _ (Frames-get_refresh_setting rp web) (Frames-get_refresh_setting rp local)
            (Runs-get_refresh_setting env rp ports))
          λ setting known.
            Starts-bind Rooms Anywhere Anywhere _ _ (Starts-etl_do_work setting.1 known) λ code _.
              Runs-Starts Anywhere _ (
                Runs-then _ _ (Runs-destroy_lib env local)
                  λ _. Runs-then _ _ (Runs-destroy_lib env web) λ _. Runs-pure-Any code)

-- `main` ends from two objects that are not in use, with room for one user more, whatever the codes of the servers and the sockets
-- and wherever they stop the run: no mutex of the two is taken twice or left held, and nothing is read
-- that a text, a row or an object does not have. The files that are read load, with an error or not,
-- and give the port of the radio; rows have the columns that are read, the radio's answer ends within
-- its buffer, and each call of the logger returns.
pub run_main-ends :
    (env : Env) (rp : RefreshParam) (w : World)
    → IsServed env
    → ((calls : List Call) → IsSome (port_in rp (env.file calls)))
    → AreIdle w
    → Rooms w
    → Returns (run_main env rp w) (λ code w'. AreIdle w')
run_main-ends env rp w h ports i room =
    Returns-map (λ code w'. Any code × AreIdle w' × Anywhere w') _ (run_main env rp w)
      ((Starts-run_main env h rp ports).at w i room) (λ code w' r. r.1)
