-- ===== src/Tests/Flush.antt =====
-- The flush of the collected tags where the server refuses an insert.
use tag_etl.Codes.{s_ok}
use tag_etl.Etl.Unread.{settled, flush_var_tags-settled}
use tag_etl.Etl.{match_songs, match_loop, checked, flush_var_tags}
use tag_etl.MySqlHelper.{execute, execute_non_query, run_query}
use tag_etl.Prelude.{true, false, List, [], ◌∷◌, some, ◌≡◌, refl, length, ◌==◌, if◌then◌else◌}
use tag_etl.SongLib.LocalLib.Store.{sent}
use tag_etl.SongLib.LocalLib.{
  SidTag, SongMap, find_song, song_key, clean_local_var_tags_relation, logged_statement,
}
use tag_etl.SongLib.WebLib.{WebSong, clean_web_old_var_tags}
use tag_etl.System.{web, local, absent, info, Call, Env, Link, World, ◌>>=◌, logged, mysql_query}
use tag_etl.Text.Converter.{uint2string}
use tag_etl.Text.{codes, bytes_eq}

abbrev used : Link
used = record { connected = true; num_ref = 1; locked = false; sql_conn = []; conn_locked = false }

abbrev running : World
running = record { calls = []; web_link = used; local_link = used }

-- The fourth call is refused.
abbrev refusing_fourth : Env
refusing_fourth = record {
  code = λ calls. if length calls == 4 then 1 else 0;
  rows = λ calls. some [];
  file = λ calls. absent;
  received = λ calls. [];
  junk = λ calls. 0;
}

abbrev collected : List WebSong
collected = record { tagid = 10; sid = 0; song_name = codes "a"; singer_name = codes "b" } ∷ []

abbrev known : SongMap
known = (codes "a_b", record { sid = 7; song_name = codes "a"; singer_name = codes "b" }) ∷ []

abbrev matched_tag : SidTag
matched_tag = record { sid = 7; tagid = 10 }

abbrev cleaned_calls : List Call
cleaned_calls =
    mysql_query local (codes "delete from re_songs_music_vartags")
    ∷ logged info 0
    ∷ mysql_query local (
        codes
          "insert into re_songs_music_vartags_backup select song_id,tag_id,date_time from re_songs_music_vartags")
    ∷ []

abbrev cleaned : World
cleaned = record running { calls = cleaned_calls }

matched_run :
    match_songs refusing_fourth collected known [] running
    ≡ some ((s_ok, matched_tag ∷ []), running)
unfolding match_songs match_loop find_song song_key bytes_eq ◌>>=◌
matched_run = refl

cleaned_run : clean_local_var_tags_relation refusing_fourth running ≡ some (s_ok, cleaned)
unfolding clean_local_var_tags_relation logged_statement execute_non_query execute run_query ◌>>=◌
cleaned_run = refl

-- The insert of the tag is refused, and the collected tags are deleted behind it.
flush_var_tags-settled_example :
    flush_var_tags refusing_fourth collected known running
    ≡ some (
      s_ok,
      record running {
        calls =
            mysql_query web (codes "delete from re_songs_vartags")
            ∷ mysql_query local
                (codes "insert into re_songs_music_vartags(song_id,tag_id) \t\t\t\tvalues(7,10)")
            ∷ cleaned_calls;
      },
    )
unfolding settled sent uint2string clean_web_old_var_tags checked execute_non_query execute
    run_query ◌>>=◌
flush_var_tags-settled_example =
    flush_var_tags-settled refusing_fourth collected known (matched_tag ∷ []) running running
      cleaned matched_run cleaned_run (record { free = refl; counted = refl }) refl
