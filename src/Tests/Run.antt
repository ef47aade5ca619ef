-- ===== src/Tests/Run.antt =====
-- The theorems on the databases and on the transfer at concrete inputs.
use tag_etl.Etl.Safety.Run.{etl_do_work-Guarded}
use tag_etl.Etl.Safety.{Guarded}
use tag_etl.Etl.{etl_do_work}
use tag_etl.Refresh.{RefreshParam}
use tag_etl.System.Keeps.{Upon}
use tag_etl.System.{content}
use tag_etl.Prelude.{◌++◌}
use tag_etl.Etl.Matching.{Matched, match_songs-Matched, matched_of, missed_of, song_of}
use tag_etl.Etl.{match_songs, search_key}
use tag_etl.SongLib.LocalLib.Map.{
  add_songs, songs_of, first_song, find_song-add_songs, local_rows-songs_of,
}
use tag_etl.SongLib.LocalLib.Store.{sent, store_tags-sent}
use tag_etl.SongLib.LocalLib.{
  LocalSong, SidTag, SongMap, find_song, song_key, local_song, local_rows, store_tags,
  trimmed_column,
}
use tag_etl.SongLib.WebLib.Counts.{counts_of, count_rows-all_reach}
use tag_etl.SongLib.WebLib.{WebSong, count_rows, int_column, tag_count}
use tag_etl.System.{Row, mysql_free_result}
use tag_etl.Text.Converter.{uint2string}
use tag_etl.Text.Number.{pos}
use tag_etl.Text.{bytes_eq}
use tag_etl.Codes.{s_ok}
use tag_etl.MySqlHelper.Opened.{state}
use tag_etl.MySqlHelper.Queries.{execute_query-eq}
use tag_etl.MySqlHelper.{ConnParam, execute_query, stored}
use tag_etl.Prelude.{true, false, List, [], ◌∷◌, some, ◌≡◌, refl}
use tag_etl.Profile.Build.{Item, Section}
use tag_etl.Profile.Printer.{print_profile}
use tag_etl.System.{local, Env, absent, Link, World, Returns, mysql_query, mysql_store_result}
use tag_etl.Text.{codes}
use tag_etl.Utility.{trim}

abbrev closed_link : Link
closed_link = state false 0 false [] false

abbrev used_link : Link
used_link = state true 2 false [] false

abbrev fresh : World
fresh = record { calls = []; web_link = closed_link; local_link = closed_link }

abbrev busy : World
busy = record { calls = []; web_link = closed_link; local_link = used_link }

-- a server that answers each call with 0
abbrev kind : Env
kind = record {
  code = λ calls. 0;
  rows = λ calls. some ((some (codes "7") ∷ []) ∷ []);
  file = λ calls. absent;
  received = λ calls. [];
  junk = λ calls. 0;
}

-- a server that refuses the encoding and each statement
abbrev refusing : Env
refusing = record kind {
  code = λ calls. elim calls [ [] ↦ 0 | mysql_query db sql ∷ rest ↦ 1 | c ∷ rest ↦ 0 ];
}

abbrev local_param : ConnParam
local_param = record {
  host = codes "127.0.0.1";
  port = 3306;
  db_name = codes "music";
  user_name = codes "etl";
  passwd = codes "secret";
}

execute_query-eq_example :
    execute_query kind local (codes "select 7") busy
    ≡ some (
      (s_ok, (some (codes "7") ∷ []) ∷ []),
      record busy { calls = mysql_store_result local ∷ mysql_query local (codes "select 7") ∷ [] },
    )
unfolding stored
execute_query-eq_example =
    execute_query-eq kind local b's' (codes "elect 7") busy (record { free = refl; counted = refl })

abbrev two_songs : List LocalSong
two_songs =
    record { sid = 1; song_name = codes "a"; singer_name = codes "b_c" }
    ∷ record { sid = 2; song_name = codes "a_b"; singer_name = codes "c" }
    ∷ []

-- the second song has the key of the first
find_song-add_songs_example :
    find_song (codes "a_b_c") (add_songs two_songs [])
    ≡ some (record { sid = 1; song_name = codes "a"; singer_name = codes "b_c" })
unfolding find_song first_song song_key
find_song-add_songs_example = find_song-add_songs (codes "a_b_c") two_songs []

abbrev local_row : Row
local_row = some (codes "7") ∷ some (codes " a ") ∷ some (codes "b") ∷ []

local_rows-songs_of_example :
    local_rows kind [] (local_row ∷ []) fresh
    ≡ some (
      add_songs (record { sid = 7; song_name = codes "a"; singer_name = codes "b" } ∷ []) [],
      record fresh { calls = mysql_free_result local ∷ [] },
    )
unfolding songs_of local_song int_column trimmed_column trim
local_rows-songs_of_example = local_rows-songs_of kind [] (local_row ∷ []) fresh

counted : counts_of ((some (codes "3") ∷ some (codes "600") ∷ []) ∷ []) ≡ some (pos 600 ∷ [])
unfolding counts_of tag_count
counted = refl

count_rows-all_reach_example :
    Returns
      (count_rows kind (pos 500) false ((some (codes "3") ∷ some (codes "600") ∷ []) ∷ []) fresh)
      (λ b w'. (b ≡ true) × (w'.web_link ≡ fresh.web_link))
count_rows-all_reach_example =
    count_rows-all_reach kind (pos 500) false ((some (codes "3") ∷ some (codes "600") ∷ []) ∷ [])
      (pos 600 ∷ []) fresh counted

abbrev two_tags : List SidTag
two_tags = record { sid = 1; tagid = 10 } ∷ record { sid = 2; tagid = 10 } ∷ []

store_tags-sent_example :
    store_tags refusing two_tags true busy
    ≡ some (
      s_ok,
      record busy {
        calls =
            mysql_query local
              (codes "insert into re_songs_music_tags(song_id,tag_id) \t\t\t\tvalues(2,10)")
            ∷ mysql_query local
                (codes "insert into re_songs_music_tags(song_id,tag_id) \t\t\t\tvalues(1,10)")
            ∷ [];
      },
    )
unfolding sent uint2string
store_tags-sent_example =
    store_tags-sent refusing two_tags true busy (record { free = refl; counted = refl }) refl

abbrev web_songs : List WebSong
web_songs =
    record { tagid = 10; sid = 0; song_name = codes "a"; singer_name = codes "b" }
    ∷ record { tagid = 11; sid = 0; song_name = codes "x"; singer_name = codes "y" }
    ∷ record { tagid = 12; sid = 0; song_name = codes "z"; singer_name = [] }
    ∷ []

abbrev local_songs : SongMap
local_songs = (codes "a_b", record { sid = 7; song_name = codes "a"; singer_name = codes "b" }) ∷ []

match_songs-Matched_example :
    Returns
      (match_songs kind web_songs local_songs [] fresh)
      (λ r w'. Matched (record { sid = 7; tagid = 10 } ∷ []) (codes "x\ty" ∷ []) r fresh w')
unfolding matched_of missed_of song_of search_key find_song song_key bytes_eq
match_songs-Matched_example = match_songs-Matched kind web_songs local_songs [] fresh

abbrev settings : List Section
settings =
    record {
      name = codes "SystemLog";
      items = record { name = codes "errorlog"; value = codes "log.txt" } ∷ [];
    }
    ∷ record {
      name = codes "SearchFile";
      items = record { name = codes "searchFilePath"; value = codes "search.txt" } ∷ [];
    }
    ∷ record { name = codes "WebMusic"; items = connection }
    ∷ record { name = codes "LocalMusic"; items = connection }
    ∷ []
  where
    connection : List Item
    connection =
        record { name = codes "host"; value = codes "127.0.0.1" }
        ∷ record { name = codes "port"; value = codes "3306" }
        ∷ record { name = codes "dbName"; value = codes "music" }
        ∷ record { name = codes "userName"; value = codes "etl" }
        ∷ record { name = codes "passWord"; value = codes "secret" }
        ∷ []

-- one row that serves as a web song, as a local song and as a count
abbrev song_row : Row
song_row = some (codes "7") ∷ some (codes "600") ∷ some (codes "600") ∷ some (codes "600") ∷ []

-- every step succeeds, and the song of the row is transferred
abbrev full : Env
full = record kind {
  rows = λ calls. some (song_row ∷ []);
  file = λ calls. content (print_profile settings);
  received = λ calls. codes "REF_OK" ++ 0 ∷ [];
}

abbrev radio : RefreshParam
radio = record { port = some (pos 9000); ip = codes "127.0.0.1"; msg = codes "reload" }

etl_do_work-Guarded_example : Upon (λ _. Guarded full) (etl_do_work full radio fresh)
etl_do_work-Guarded_example = etl_do_work-Guarded full radio fresh tt
