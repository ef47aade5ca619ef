-- ===== src/Etl/Matching.antt =====
-- `MatchSongsAndWriteMissedToFile` of tagEtl.cpp, against the list of matches and the list of misses.
use mathlib.Core.List.{append_assoc, append-nil}
use tag_etl.Etl.{search_key, sid_tag, missed, match_loop, match_songs}
use tag_etl.Prelude.{
  ℕ, List, [], ◌∷◌, ◌++◌, Option, none, some, ◌≡◌, refl, sym, ◌∙◌, ◌==◌, if◌then◌else◌, Bool-cases,
  Option-cases, inl, inr,
}
use tag_etl.Profile.Lookup.{is_empty}
use tag_etl.Search.{write_search_songs}
use tag_etl.SongLib.LocalLib.{SongMap, LocalSong, SidTag, find_song, song_key}
use tag_etl.SongLib.WebLib.{WebSong}
use tag_etl.System.{Call, write_search, Env, World, Act, Returns, Returns-map, ◌>>=◌}
use tag_etl.Text.{Bytes}

-- The local song of a web song; one without a singer is not looked up.
unfoldable pub song_of : SongMap → WebSong → Option LocalSong
song_of songs s = find_song (song_key s.song_name s.singer_name) songs

-- The tags of the songs that are found, in their order.
unfoldable pub matched_of : SongMap → List WebSong → List SidTag
unfolding song_of
matched_of songs [] = []
matched_of songs (s ∷ rest) =
    if is_empty s.singer_name then matched_of songs rest else elim (song_of songs s) [
      | none ↦ matched_of songs rest
      | some l ↦ sid_tag l s ∷ matched_of songs rest
    ]

-- The lines of the songs with a singer that are not found, in their order.
unfoldable pub missed_of : SongMap → List WebSong → List Bytes
unfolding song_of search_key
missed_of songs [] = []
missed_of songs (s ∷ rest) =
    if is_empty s.singer_name then missed_of songs rest else elim (song_of songs s) [
      | none ↦ search_key s ∷ missed_of songs rest
      | some l ↦ missed_of songs rest
    ]

-- The lines written to the search file, the first one in front.
unfoldable pub written : List Call → List Bytes
written [] = []
written (write_search line ∷ calls) = written calls ++ line ∷ []
written (c ∷ calls) = written calls

-- What a loop leaves: the tags, the lines, and the two links.
pub record Matched (tags : List SidTag) (lines : List Bytes) (r : ℕ × List SidTag) (old new : World)
    : Type 0 where
  pub tags_now : r.1 ≡ tags
  pub lines_now : written new.calls ≡ written old.calls ++ lines
  pub web_link : new.web_link ≡ old.web_link
  pub local_link : new.local_link ≡ old.local_link

module _ (env : Env) (songs : SongMap) where
  missed-written :
      {A : Type 0} (s : WebSong) (w : World) (k : ℕ → Act A) (P : A → World → Type 0)
      → ((code : ℕ) (w' : World)
          → written w'.calls ≡ written w.calls ++ search_key s ∷ []
          → w'.web_link ≡ w.web_link
          → w'.local_link ≡ w.local_link
          → Returns (k code w') P)
      → Returns ((missed env s >>= k) w) P
  unfolding missed write_search_songs ◌>>=◌ written search_key
  missed-written s w k P h =
      elim (Bool-cases (env.code (write_search (search_key s) ∷ w.calls) == 0)) [
        | inl e ↦ rw (e, Returns) (h _ _ refl refl refl)
        | inr e ↦ rw (e, Returns) (h _ _ refl refl refl)
      ]

  match_loop-Matched :
      (code : ℕ) (matched : List SidTag) (vecp : List WebSong) (w : World)
      → Returns
          (match_loop env songs code matched vecp w)
          (λ r w'. Matched (matched ++ matched_of songs vecp) (missed_of songs vecp) r w w')
  unfolding match_loop matched_of missed_of song_of ◌>>=◌
  match_loop-Matched code matched [] w = record {
    tags_now = sym (append-nil _);
    lines_now = sym (append-nil _);
    web_link = refl;
    local_link = refl;
  }
  match_loop-Matched code matched (s ∷ rest) w = elim (Bool-cases (is_empty s.singer_name)) [
    | inl e ↦ rw (e, match_loop) (match_loop-Matched code matched rest w)
    | inr e ↦ elim (Option-cases (song_of songs s)) [
      | inl n ↦
          rw (e, n, match_loop)
            (missed-written s w _ _ λ code' w' lines web_same local_same.
              Returns-map _
                (λ r w''.
                  Matched (matched ++ matched_of songs rest) (search_key s ∷ missed_of songs rest) r
                    w w'')
                _ (match_loop-Matched code' matched rest w')
                λ r w'' m. record {
                  tags_now = m.tags_now;
                  lines_now =
                      m.lines_now
                      ∙ rw lines (
                          append_assoc (written w.calls) (search_key s ∷ [])
                            (missed_of songs rest));
                  web_link = m.web_link ∙ web_same;
                  local_link = m.local_link ∙ local_same;
                })
      | inr (l, h) ↦
          rw (e, h, match_loop)
            (Returns-map _
              (λ r w'.
                Matched (matched ++ sid_tag l s ∷ matched_of songs rest) (missed_of songs rest) r w
                  w')
              _ (match_loop-Matched code (matched ++ sid_tag l s ∷ []) rest w)
              λ r w' m. record {
                tags_now =
                    m.tags_now ∙ append_assoc matched (sid_tag l s ∷ []) (matched_of songs rest);
                lines_now = m.lines_now;
                web_link = m.web_link;
                local_link = m.local_link;
              })
    ]
  ]

-- Matching always returns. It appends the tags of exactly the songs that have a singer and whose key,
-- the name, `_` and the singer in one text, the local library has, in the order of the web songs;
-- two songs with one key are not told apart. It writes one line for each other song with a singer, in
-- their order, and leaves both connections alone.
pub match_songs-Matched :
    (env : Env) (vecp : List WebSong) (songs : SongMap) (matched : List SidTag) (w : World)
    → Returns
        (match_songs env vecp songs matched w)
        (λ r w'. Matched (matched ++ matched_of songs vecp) (missed_of songs vecp) r w w')
unfolding match_songs
match_songs-Matched env vecp songs matched w = match_loop-Matched env songs 0 matched vecp w
