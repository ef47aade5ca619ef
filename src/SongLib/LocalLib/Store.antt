-- ===== src/SongLib/LocalLib/Store.antt =====
-- The statements of `StoreTags` of songLib/localLib.cpp.
use tag_etl.Codes.{s_ok, error_no_matched_song}
use tag_etl.MySqlHelper.Connection.{IsIdle}
use tag_etl.MySqlHelper.Queries.{execute_non_query-eq}
use tag_etl.MySqlHelper.{execute_non_query}
use tag_etl.Prelude.{ℕ, Bool, true, false, List, [], ◌∷◌, ◌++◌, some, ◌≡◌, refl, ◌∙◌}
use tag_etl.SongLib.LocalLib.{SidTag, store_sql, store_loop, store_tags}
use tag_etl.System.{local, Env, World, mysql_query, record_call, bind-some, pure}
use tag_etl.Text.Converter.{uint2string}
use tag_etl.Text.{Bytes, codes}

abbrev values_of : SidTag → Bytes
values_of t =
    codes "values(" ++ (uint2string t.sid ++ (codes "," ++ (uint2string t.tagid ++ codes ")")))

-- The statement that inserts a tag into the table of stable or of collected tags.
abbrev pub insert_of : Bool → SidTag → Bytes
insert_of true t =
    codes "insert into re_songs_music_tags" ++ (codes "(song_id,tag_id) \t\t\t\t" ++ values_of t)
insert_of false t =
    codes "insert into re_songs_music_vartags" ++ (codes "(song_id,tag_id) \t\t\t\t" ++ values_of t)

-- One statement for each tag, in their order, whatever the server answers.
unfoldable pub sent : Bool → List SidTag → World → World
sent stable [] w = w
sent stable (t ∷ rest) w = sent stable rest (record_call (mysql_query local (insert_of stable t)) w)

abbrev pub outcome : List SidTag → ℕ
outcome [] = error_no_matched_song
outcome (t ∷ rest) = s_ok

insert_of-text :
    (stable : Bool) (t : SidTag) → (c : ℕ) × (cs : Bytes) × (insert_of stable t ≡ c ∷ cs)
insert_of-text true t = (_, _, refl)
insert_of-text false t = (_, _, refl)

store_sql-insert_of : (stable : Bool) (t : SidTag) → store_sql stable t ≡ insert_of stable t
store_sql-insert_of true t = refl
store_sql-insert_of false t = refl

module _ (env : Env) where
  statement-sent :
      (sql : Bytes) (w : World)
      → (c : ℕ) × (cs : Bytes) × (sql ≡ c ∷ cs)
      → IsIdle w.local_link
      → w.local_link.connected ≡ true
      → execute_non_query env local sql w
        ≡ some (env.code (mysql_query local sql ∷ w.calls), record_call (mysql_query local sql) w)
  statement-sent sql w (c, cs, e) idle on =
      rw e (execute_non_query-eq env local c cs w idle ∙ rw on refl)

  store_loop-sent :
      (stable : Bool) (tags : List SidTag) (w : World)
      → IsIdle w.local_link
      → w.local_link.connected ≡ true
      → store_loop env stable tags w ≡ some (tt, sent stable tags w)
  unfolding store_loop sent pure
  store_loop-sent stable [] w idle on = refl
  store_loop-sent stable (t ∷ rest) w idle on =
      rw (store_sql-insert_of stable t) (
        bind-some (execute_non_query env local (insert_of stable t))
          (λ _. store_loop env stable rest) w _ _
          (statement-sent (insert_of stable t) w (insert_of-text stable t) idle on))
      ∙ (store_loop-sent stable rest (record_call (mysql_query local (insert_of stable t)) w) idle
          on)

  -- `StoreTags` on an open connection always returns. A list with a tag gives S_OK whatever the server
  -- answers, with one statement for each tag, in their order, that
  -- inserts its song and its tag into the table of its kind, and nothing else changed; an
  -- empty list gives ERROR_NO_MATCHED_SONG with no statement.
  pub store_tags-sent :
      (tags : List SidTag) (stable : Bool) (w : World)
      → IsIdle w.local_link
      → w.local_link.connected ≡ true
      → store_tags env tags stable w ≡ some (outcome tags, sent stable tags w)
  unfolding store_tags sent pure
  store_tags-sent [] stable w idle on = refl
  store_tags-sent (t ∷ rest) stable w idle on =
      bind-some (store_loop env stable (t ∷ rest)) (λ _. pure s_ok) w _ _
        (store_loop-sent stable (t ∷ rest) w idle on)
