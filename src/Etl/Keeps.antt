-- ===== src/Etl/Keeps.antt =====
-- What the parts of the transfer keep of the list of calls: search/searchFileGenerator.cpp,
-- refresh/refresher.cpp and the steps of tagEtl.cpp.
use tag_etl.Codes.{s_ok}
use tag_etl.SongLib.Connection.{dis_conn_from_lib}
use tag_etl.Etl.{
  get_logger_path, logger_at, initialize_logger, missed, match_loop, match_songs, sid_tag, checked,
  checked_with, finish,
}
use tag_etl.Prelude.{ℕ, false, List, [], ◌∷◌, ◌++◌, ◌==◌, Bool-cases, Option-cases, inl, inr}
use tag_etl.Profile.Lookup.{is_empty}
use tag_etl.Refresh.Keeps.{Keeps-refresh_public_radio}
use tag_etl.Refresh.{RefreshParam}
use tag_etl.Search.{get_search_file_path, search_file_init, write_search_songs}
use tag_etl.SongLib.Connection.Keeps.{Keeps-load_profile, Keeps-dis_conn_from_lib}
use tag_etl.SongLib.LocalLib.Keeps.{Keeps-back_up_stable_tags}
use tag_etl.SongLib.LocalLib.{SongMap, SidTag, find_song, song_key}
use tag_etl.SongLib.WebLib.{WebSong}
use tag_etl.System.Keeps.{Keeps, Stable, Keeps-bind, Keeps-branch, keeps_rules}
use tag_etl.System.{Act, Call, Env, web, local, ◌>>◌, pure, call, logged, error}
use tag_etl.Text.{Bytes}

module _ (P : List Call → Type 0) (stable : Stable P) (env : Env) where
  Keeps-get_search_file_path : Keeps P (get_search_file_path env)
  unfolding get_search_file_path
  Keeps-get_search_file_path = search (keeps_rules, Keeps-load_profile P stable env) depth 20

  pub Keeps-search_file_init : Keeps P (search_file_init env)
  unfolding search_file_init
  Keeps-search_file_init = search (keeps_rules, Keeps-get_search_file_path) depth 20

  Keeps-write_search_songs : (s : Bytes) → Keeps P (write_search_songs env s)
  unfolding write_search_songs
  Keeps-write_search_songs s = search keeps_rules depth 20

  Keeps-missed : (s : WebSong) → Keeps P (missed env s)
  unfolding missed
  Keeps-missed s = search (keeps_rules, Keeps-write_search_songs) depth 20

  Keeps-match_loop :
      (songs : SongMap) (code : ℕ) (m : List SidTag) (v : List WebSong)
      → Keeps P (match_loop env songs code m v)
  unfolding match_loop
  Keeps-match_loop songs code m [] = search keeps_rules
  Keeps-match_loop songs code m (s ∷ rest) = elim (Bool-cases (is_empty s.singer_name)) [
    | inl e ↦ rw (e, match_loop) (Keeps-match_loop songs code m rest)
    | inr e ↦ elim (Option-cases (find_song (song_key s.song_name s.singer_name) songs)) [
      | inl n ↦
          rw (e, n, match_loop)
            (Keeps-bind _ _ (Keeps-missed s) λ code'. Keeps-match_loop songs code' m rest)
      | inr (l, h) ↦
          rw (e, h, match_loop) (Keeps-match_loop songs code (m ++ sid_tag l s ∷ []) rest)
    ]
  ]

  pub Keeps-match_songs :
      (v : List WebSong) (songs : SongMap) (m : List SidTag) → Keeps P (match_songs env v songs m)
  unfolding match_songs
  Keeps-match_songs v songs m = Keeps-match_loop songs 0 m v

  Keeps-logger_at : (r : ℕ × Bytes) → Keeps P (logger_at env r)
  unfolding logger_at
  Keeps-logger_at (code, path) = search keeps_rules depth 20

  pub Keeps-initialize_logger : Keeps P (initialize_logger env)
  unfolding initialize_logger get_logger_path
  Keeps-initialize_logger =
      search (keeps_rules, Keeps-load_profile P stable env, Keeps-logger_at) depth 20

  pub Keeps-logged_error : (code : ℕ) → Keeps P (call env (logged error code) >> pure code)
  Keeps-logged_error code = search keeps_rules depth 20

  pub Keeps-checked : (m k : Act ℕ) → Keeps P m → Keeps P k → Keeps P (checked env m k)
  unfolding checked
  Keeps-checked m k hm hk =
      Keeps-bind m _ hm λ code. Keeps-branch (code == s_ok) k _ hk (Keeps-logged_error code)

  pub Keeps-checked_with :
      {A : Type 0} (m : Act (ℕ × A)) (k : A → Act ℕ)
      → Keeps P m
      → ((a : A) → Keeps P (k a))
      → Keeps P (checked_with env m k)
  unfolding checked_with
  Keeps-checked_with m k hm hk =
      Keeps-bind m _ hm λ r. Keeps-branch (r.0 == s_ok) (k r.1) _ (hk r.1) (Keeps-logged_error r.0)

  Keeps-disconnected :
      Keeps P (dis_conn_from_lib env web false >> (dis_conn_from_lib env local false >> pure s_ok))
  Keeps-disconnected = search (keeps_rules, Keeps-dis_conn_from_lib P stable env) depth 20

  pub Keeps-finish : (rp : RefreshParam) → Keeps P (finish env rp)
  unfolding finish
  Keeps-finish rp =
      Keeps-checked _ _ (Keeps-back_up_stable_tags P stable env)
        (Keeps-checked _ _ (Keeps-refresh_public_radio P stable env rp) Keeps-disconnected)
