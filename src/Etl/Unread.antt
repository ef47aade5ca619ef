-- ===== src/Etl/Unread.antt =====
-- What `EtlDoWork` makes of the answers to the insert statements when it moves the collected tags.
use tag_etl.Codes.{s_ok, error_no_matched_song}
use tag_etl.Etl.{match_songs, checked, checked_with, flush_var_tags}
use tag_etl.MySqlHelper.Connection.{IsIdle}
use tag_etl.Prelude.{ℕ, true, false, List, [], ◌∷◌, some, ◌≡◌, refl, ◌∙◌, ◌==◌}
use tag_etl.SongLib.LocalLib.Store.{sent, store_tags-sent}
use tag_etl.SongLib.LocalLib.{
  SidTag, SongMap, clean_local_var_tags_relation, store_tags, store_var_tags, log_failure,
}
use tag_etl.SongLib.WebLib.{WebSong, clean_web_old_var_tags}
use tag_etl.System.{Act, Env, World, ◌>>=◌, ◌>>◌, bind-some, pure, branch, call, logged, error}

-- The end of a flush with these matched tags: without one, two lines of the log and the error; else
-- the inserts, and the deletion in the web library behind them.
unfoldable pub settled : Env → List SidTag → Act ℕ
settled env [] = do
  call env (logged error error_no_matched_song)
  call env (logged error error_no_matched_song)
  pure error_no_matched_song
settled env (t ∷ rest) =
    λ w. checked env (clean_web_old_var_tags env) (pure s_ok) (sent false (t ∷ rest) w)

module _ (env : Env) where
  checked-passes : (m k : Act ℕ) (w w' : World) → m w ≡ some (s_ok, w') → checked env m k w ≡ k w'
  unfolding checked branch
  checked-passes m k w w' e =
      bind-some m (λ code. branch (code == s_ok) k (do call env (logged error code); pure code)) w
        w' s_ok e

  checked_with-passes :
      {A : Type 0} (m : Act (ℕ × A)) (k : A → Act ℕ) (w w' : World) (a : A)
      → m w ≡ some ((s_ok, a), w')
      → checked_with env m k w ≡ k a w'
  unfolding checked_with branch
  checked_with-passes m k w w' a e =
      bind-some m (λ r. branch (r.0 == s_ok) (k r.1) (do call env (logged error r.0); pure r.0)) w
        w' (s_ok, a) e

  store_var_tags-sent :
      (t : SidTag) (rest : List SidTag) (w : World)
      → IsIdle w.local_link
      → w.local_link.connected ≡ true
      → store_var_tags env (t ∷ rest) w ≡ some (s_ok, sent false (t ∷ rest) w)
  unfolding store_var_tags log_failure branch pure
  store_var_tags-sent t rest w idle on =
      bind-some (store_tags env (t ∷ rest) false) (log_failure env) w _ s_ok
        (store_tags-sent env (t ∷ rest) false w idle on)

  stored-settled :
      (tags : List SidTag) (w : World)
      → IsIdle w.local_link
      → w.local_link.connected ≡ true
      → checked env
          (store_var_tags env tags)
          (checked env (clean_web_old_var_tags env) (pure s_ok))
          w
        ≡ settled env tags w
  unfolding settled checked store_var_tags store_tags log_failure ◌>>=◌ branch call pure
  stored-settled [] w idle on = refl
  stored-settled (t ∷ rest) w idle on =
      checked-passes (store_var_tags env (t ∷ rest)) _ w _ (store_var_tags-sent t rest w idle on)

  -- Once the collected songs are matched and the local relation is cleaned, with the local connection
  -- open, the answers of the server to the inserts decide nothing: with a match, each tag is sent
  -- once and the deletion of the collected tags in the web library comes next. With no match the
  -- flush is the error ERROR_NO_MATCHED_SONG, after the local relation has been cleaned.
  pub flush_var_tags-settled :
      (v : List WebSong) (songs : SongMap) (tags : List SidTag) (w w1 w2 : World)
      → match_songs env v songs [] w ≡ some ((s_ok, tags), w1)
      → clean_local_var_tags_relation env w1 ≡ some (s_ok, w2)
      → IsIdle w2.local_link
      → w2.local_link.connected ≡ true
      → flush_var_tags env v songs w ≡ settled env tags w2
  unfolding flush_var_tags
  flush_var_tags-settled v songs tags w w1 w2 matched cleaned idle on =
      checked_with-passes (match_songs env v songs []) _ w w1 tags matched
      ∙ checked-passes (clean_local_var_tags_relation env) _ w1 w2 cleaned
      ∙ stored-settled tags w2 idle on
