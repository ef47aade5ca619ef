-- ===== src/SongLib/LocalLib/Map.antt =====
-- What `LoadSongs` of songLib/localLib.cpp finds later: the map of songs against the list of rows.
use tag_etl.MySqlHelper.{fetch_one_row}
use tag_etl.Prelude.{
  ℕ, List, [], ◌∷◌, Option, none, some, ◌≡◌, refl, ◌∙◌, if◌then◌else◌, arith, Option-cases, inl,
  inr, ◌>>=◌ as ◌>>=ₒ◌,
}
use tag_etl.SongLib.LocalLib.{
  LocalSong, SongMap, find_song, insert_song, song_key, add_song, local_song, local_rows,
}
use tag_etl.System.{local, Env, World, Row, mysql_free_result, record_call, ◌>>=◌}
use tag_etl.Text.{Bytes, bytes_eq, bytes_eq_iff}

-- The songs of the rows; `none` is a row whose reading is undefined.
unfoldable pub songs_of : ℕ → List Row → Option (List LocalSong)
songs_of junk [] = some []
songs_of junk (row ∷ rest) =
    local_song junk row >>=ₒ λ s. songs_of junk rest >>=ₒ λ ss. some (s ∷ ss)

unfoldable pub add_songs : List LocalSong → SongMap → SongMap
unfolding insert_song song_key
add_songs [] songs = songs
add_songs (s ∷ ss) songs = add_songs ss (add_song s songs)

-- The first song of a key.
unfoldable pub first_song : Bytes → List LocalSong → Option LocalSong
unfolding bytes_eq song_key
first_song key [] = none
first_song key (s ∷ ss) =
    if bytes_eq (song_key s.song_name s.singer_name) key then some s else first_song key ss

abbrev pub or_else : Option LocalSong → Option LocalSong → Option LocalSong
or_else none b = b
or_else (some a) b = some a

find_song-insert_song :
    (key k : Bytes) (s : LocalSong) (songs : SongMap)
    → find_song key (insert_song k s songs)
      ≡ or_else (find_song key songs) (if bytes_eq k key then some s else none)
unfolding find_song insert_song
find_song-insert_song key k s [] = refl
find_song-insert_song key k s ((k', s') ∷ rest) = ground (
  arith,
  bytes_eq_iff k' k,
  bytes_eq_iff k' key,
  bytes_eq_iff k key,
  find_song-insert_song key k s rest,
)

-- After loading, a key finds the song that it found before, or else the first loaded one of the key:
-- a later song of the same name and singer is never used.
pub find_song-add_songs :
    (key : Bytes) (ss : List LocalSong) (songs : SongMap)
    → find_song key (add_songs ss songs) ≡ or_else (find_song key songs) (first_song key ss)
unfolding add_songs first_song
find_song-add_songs key [] songs = ground arith
find_song-add_songs key (s ∷ ss) songs = ground (
  arith,
  find_song-add_songs key ss (add_song s songs),
  find_song-insert_song key (song_key s.song_name s.singer_name) s songs,
)

add_songs-cons :
    (s : LocalSong) (songs : SongMap) (w : World) (o : Option (List LocalSong))
    → ◌>>=ₒ◌ {B = SongMap × World} o (λ ss. some (add_songs ss (add_song s songs), w))
      ≡ ◌>>=ₒ◌ {B = SongMap × World}
          (o >>=ₒ (λ ss. some (s ∷ ss)))
          (λ ss. some (add_songs ss songs, w))
unfolding add_songs
add_songs-cons s songs w none = refl
add_songs-cons s songs w (some ss) = refl

module _ (env : Env) where
  -- The loop of `LoadSongs` reads every row: it returns the map with the songs of the rows added in
  -- their order, and frees the result once, at the end. It is undefined exactly if the reading of some
  -- row is.
  pub local_rows-songs_of :
      (songs : SongMap) (rows : List Row) (w : World)
      → local_rows env songs rows w ≡ (
          songs_of (env.junk w.calls) rows >>=ₒ λ ss.
          some (add_songs ss songs, record_call (mysql_free_result local) w))
  unfolding local_rows songs_of add_songs fetch_one_row ◌>>=◌
  local_rows-songs_of songs [] w = refl
  local_rows-songs_of songs (row ∷ rest) w =
      elim (Option-cases (local_song (env.junk w.calls) row)) [
        | inl e ↦ rw (e, local_rows) refl
        | inr (s, e) ↦
            rw (e, local_rows)
              (local_rows-songs_of (add_song s songs) rest w
                ∙ add_songs-cons s songs (record_call (mysql_free_result local) w)
                    (songs_of (env.junk w.calls) rest))
      ]
