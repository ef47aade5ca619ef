-- ===== src/Tests.antt =====
-- The theorems on texts, profiles and the memory cache at concrete inputs.
mod Run
mod Logs
mod Small
mod Settings
mod Urls
mod Transfer
mod Flush
use tag_etl.Etl.Safety.Run.{etl_do_work-Guarded}
use tag_etl.Etl.Safety.{Guarded, local_cleaned}
use tag_etl.Etl.{etl_do_work}
use tag_etl.Refresh.{RefreshParam}
use tag_etl.System.Keeps.{Upon}
use tag_etl.System.{content}
use tag_etl.Prelude.{inl, ◌++◌}
use tag_etl.Text.Converter.{digit_char}
use tag_etl.Url.Decode.RoundTrip.{encode, url_to_utf8-encode}
use tag_etl.Url.Decode.{url_to_utf8}
use tag_etl.Url.{load_url, no_url, select_param}
use tag_etl.Prelude.{◌>>=◌}
use tag_etl.Etl.Matching.{Matched, match_songs-Matched, matched_of, missed_of, song_of}
use tag_etl.Etl.{match_songs, search_key}
use tag_etl.Memcache.Lock
use tag_etl.Memcache.Lock.{
  run, run_all, free, prepend, append, delete, Ends, run-locked, prepend-run, run_all-IsOpen,
}
use tag_etl.Memcache.{Client, Memcache}
use tag_etl.SongLib.LocalLib.Map.{
  add_songs, songs_of, first_song, find_song-add_songs, local_rows-songs_of,
}
use tag_etl.SongLib.LocalLib.Store.{sent, store_tags-sent}
use tag_etl.SongLib.LocalLib.{
  LocalSong, SidTag, SongMap, find_song, song_key, local_song, local_rows, store_tags,
  trimmed_column,
}
use tag_etl.SongLib.WebLib.Counts.{counts_of, count_rows-all_reach}
use tag_etl.SongLib.WebLib.{WebSong, count_rows, int_column, tag_count}
use tag_etl.System.{Row, mysql_free_result}
use tag_etl.Text.Number.{pos}
use tag_etl.Text.{bytes_eq}
use tag_etl.Codes.{s_ok}
use tag_etl.MySqlHelper.Connection.{
  Conn, Closed, IsIdle, sql_conn-Conn, sql_conn-IsIdle, sql_close-Closed,
}
use tag_etl.MySqlHelper.Opened.{state}
use tag_etl.MySqlHelper.Queries.{execute_non_query-eq, execute_query-eq}
use tag_etl.MySqlHelper.{ConnParam, sql_conn, sql_close, execute_non_query, execute_query, stored}
use tag_etl.Prelude.{true, false, List, [], ◌∷◌, none, some, ◌≡◌, refl, arith}
use tag_etl.Profile.Build.Lines.{build_loop-run_lines, lines, run_lines}
use tag_etl.Profile.Build.{Item, Section, Builder, build_loop, build_profile_queue}
use tag_etl.Profile.Lookup.First.{get_prof_value-value_of, value_of}
use tag_etl.Profile.Lookup.{get_prof_value}
use tag_etl.Profile.Printer.RoundTrip.{build_profile_queue-print_profile}
use tag_etl.Profile.Printer.{IsPlain, print_profile}
use tag_etl.Profile.Trimming.Reference.{tirm-trim_both, quot_tirm-trim_both}
use tag_etl.Profile.Trimming.{tirm, quot_tirm}
use tag_etl.System.{
  web, local, Env, absent, Link, World, Returns, link_of, mysql_query, mysql_store_result,
}
use tag_etl.Text.Trim.{trim_left, trim_right, trim_both}
use tag_etl.Text.{codes, is_blank, is_quote, index_of}
use tag_etl.Utility.Reference.{trim-tirm}
use tag_etl.Utility.{ltrim, rtrim, trim}

tirm-trim_both_example : tirm (codes " a b\t") ≡ some (codes "a b")
unfolding trim_both trim_left trim_right is_blank
tirm-trim_both_example = tirm-trim_both (codes " a b\t")

quot_tirm-trim_both_example : quot_tirm (codes "\"it's\"") ≡ some (codes "it's")
unfolding trim_both trim_left trim_right is_quote
quot_tirm-trim_both_example = quot_tirm-trim_both (codes "\"it's\"")

trim-tirm_example : trim (codes " a ") ≡ some (codes "a")
unfolding tirm is_blank
trim-tirm_example = trim-tirm (codes " a ")

abbrev demo : List Section
demo =
    record {
      name = codes "WebMusic";
      items =
          record { name = codes "host"; value = codes "10.0.0.1" }
          ∷ record { name = codes "port"; value = codes "3306" }
          ∷ [];
    }
    ∷ record { name = codes "Empty"; items = [] }
    ∷ []

get_prof_value-value_of_example :
    get_prof_value demo (codes " WebMusic") (codes "port ") [] ≡ some (s_ok, codes "3306")
unfolding value_of trim_both trim_left trim_right is_blank
get_prof_value-value_of_example =
    get_prof_value-value_of demo (codes " WebMusic") (codes "port ") []

demo-IsPlain : IsPlain demo
unfolding trim_both trim_left trim_right index_of is_blank is_quote
demo-IsPlain = (
  record { trimmed = refl; no_bracket = refl; no_line = refl },
  (
    record {
      name_trimmed = refl;
      value_trimmed = refl;
      no_bracket = refl;
      no_equals = refl;
      no_comment = refl;
      no_comment_value = refl;
      no_line = refl;
      no_line_value = refl;
    },
    (
      record {
        name_trimmed = refl;
        value_trimmed = refl;
        no_bracket = refl;
        no_equals = refl;
        no_comment = refl;
        no_comment_value = refl;
        no_line = refl;
        no_line_value = refl;
      },
      tt,
    ),
  ),
  (record { trimmed = refl; no_bracket = refl; no_line = refl }, tt, tt),
)

build_profile_queue-print_profile_example :
    build_profile_queue [] (print_profile demo) ≡ some (s_ok, demo)
build_profile_queue-print_profile_example =
    build_profile_queue-print_profile
      (record {
        name = codes "WebMusic";
        items =
            record { name = codes "host"; value = codes "10.0.0.1" }
            ∷ record { name = codes "port"; value = codes "3306" }
            ∷ [];
      })
      (record { name = codes "Empty"; items = [] } ∷ []) demo-IsPlain

abbrev no_sections : Builder
no_sections = record { sections = []; has_last = false }

build_loop-run_lines_example :
    build_loop 9 (codes "[a]\nb=1") 0 no_sections
    ≡ run_lines (codes "[a]" ∷ codes "b=1" ∷ []) no_sections
unfolding lines
build_loop-run_lines_example =
    build_loop-run_lines 9 (codes "[a]\nb=1") 0 no_sections (omega arith) (omega arith)

-- a server of libmemcached that does everything
abbrev server : Client
server = record {
  success = 0;
  server_error = 7;
  not_stored = 14;
  answer = λ calls. 0;
  value = λ calls. some (codes "v");
}

abbrev no_handle : Memcache
no_handle = record { calls = []; has_handle = false; locked = false }

run-locked_example :
    Lock.Returns
      (run server (prepend (codes "k") (some (codes "v")) 0) no_handle)
      (λ code m'. m'.locked ≡ true)
run-locked_example =
    run-locked server (prepend (codes "k") (some (codes "v")) 0) [] false refl (inl refl)

prepend-run_example :
    run_all server
      (prepend (codes "k") (some (codes "v")) 0 ∷ free ∷ delete (codes "k") ∷ [])
      no_handle
    ≡ none
prepend-run_example =
    prepend-run server (codes "k") (codes "v") 0 (free ∷ []) (delete (codes "k")) [] [] refl refl

run_all-IsOpen_example : Ends (
    run_all server
      (append (codes "k") (some (codes "v")) 0 ∷ delete (codes "k") ∷ [])
      (record no_handle { has_handle = true }))
run_all-IsOpen_example =
    run_all-IsOpen server (append (codes "k") (some (codes "v")) 0 ∷ delete (codes "k") ∷ [])
      (record no_handle { has_handle = true }) ((refl, refl, (refl, refl, tt))) (refl, refl)
