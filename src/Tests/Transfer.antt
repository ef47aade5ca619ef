-- ===== src/Tests/Transfer.antt =====
-- The theorems on the whole transfer at a concrete environment.
use tag_etl.Etl.Returns.{IsServed}
use tag_etl.Etl.Ends.{run_main-ends}
use tag_etl.Etl.Outcome.{IsDone, etl_do_work-IsDone}
use tag_etl.Etl.Safety.{Guarded}
use tag_etl.Etl.{etl_do_work, run_main}
use tag_etl.System.Success.{Success}
use tag_etl.MySqlHelper.Runs.{AreIdle, IsSome}
use tag_etl.Prelude.{arith, false, List, [], ◌∷◌, ◌++◌, ◌≡◌, refl, none, some}
use tag_etl.Profile.Load.{profile_of}
use tag_etl.Profile.Lookup.{get_profile_string_w, get_profile_int_w}
use tag_etl.Refresh.Runs.{port_in}
use tag_etl.Refresh.{c_string_within, refresh_setting_in}
use tag_etl.System.{Call, Env, Link, Returns, Row, World, content}
use tag_etl.Text.Number.{pos}
use tag_etl.Text.Trim.{trim_both}
use tag_etl.Text.{Bytes, codes, is_blank}

abbrev idle : Link
idle = record { connected = false; num_ref = 0; locked = false; sql_conn = []; conn_locked = false }

abbrev start : World
start = record { calls = []; web_link = idle; local_link = idle }

-- Each query has one row, which reads as a song, as a count and as a local song.
abbrev only_row : Row
only_row = some (codes "7") ∷ some (codes "600") ∷ some (codes "600") ∷ some (codes "600") ∷ []

abbrev settings : Bytes
settings =
    codes "[SystemLog]\nerrorlog=log\n[SearchFile]\nsearchFilePath=miss\n"
    ++ (codes "[WebMusic]\nhost=h\nport=1\ndbName=d\nuserName=u\npassWord=p\n"
        ++ (codes "[LocalMusic]\nhost=h\nport=2\ndbName=d\nuserName=u\npassWord=p\n"
            ++ (codes "[FlushSetting]\nvarTagsFlushThreshold=500\n"
                ++ codes "[FlushPublicRadioSetting]\nservIp=a\nservPort=3\nmessage=m\n")))

abbrev serving : Env
serving = record {
  code = λ calls. 0;
  rows = λ calls. some (only_row ∷ []);
  file = λ calls. content settings;
  received = λ calls. codes "REF_OK" ++ (0 ∷ codes "..");
  junk = λ calls. 0;
}

only_rows : (rows : List Row) → some (only_row ∷ []) ≡ some rows → only_row ∷ [] ≡ rows
only_rows rows e = cc

serving-IsServed : IsServed serving
unfolding profile_of c_string_within trim_both is_blank
serving-IsServed = record {
  files = λ calls. tt;
  songs = λ volatile calls rows e. rw (← only_rows rows e) (tt, tt);
  counts = λ calls rows e. rw (← only_rows rows e) (tt, tt);
  local_songs = λ calls rows e. rw (← only_rows rows e) ((cc, cc), tt);
  answer = λ calls. tt;
}

serving_port :
    (calls : List Call)
    → IsSome (port_in (record { port = none; ip = []; msg = [] }) (serving.file calls))
unfolding profile_of trim_both is_blank refresh_setting_in get_profile_string_w get_profile_int_w
serving_port calls = tt

run_main-ends_example :
    Returns
      (run_main serving (record { port = none; ip = []; msg = [] }) start)
      (λ code w'. AreIdle w')
run_main-ends_example =
    run_main-ends serving (record { port = none; ip = []; msg = [] }) start serving-IsServed
      serving_port (record { free = refl; counted = refl }, record { free = refl; counted = refl })
      (omega arith, omega arith)

etl_do_work-IsDone_example :
    Returns
      (etl_do_work serving (record { port = some (pos 3); ip = []; msg = [] }) start)
      (λ code w'. AreIdle w' × Guarded serving w'.calls × Success (IsDone serving) code w'.calls)
etl_do_work-IsDone_example =
    etl_do_work-IsDone serving (record { port = some (pos 3); ip = []; msg = [] }) start
      serving-IsServed tt
      (record { free = refl; counted = refl }, record { free = refl; counted = refl })
      (omega arith, omega arith) refl
