-- ===== src/Tests/Settings.antt =====
-- The theorems on the settings and on the refresher at concrete inputs.
use tag_etl.Codes.{s_ok}
use tag_etl.MySqlHelper.{ConnParam, sql_conn}
use tag_etl.SongLib.Connection.FromFile.{connect_to_lib-print_profile}
use tag_etl.SongLib.Connection.{connect_to_lib}
use tag_etl.Prelude.{none, ℕ, ◌≡◌, ◌↔◌, refl, false, [], ◌∷◌, ◌++◌, some, arith}
use tag_etl.Profile.Build.{Section}
use tag_etl.Profile.Load.{db_config_pos, sys_config_pos}
use tag_etl.Profile.Lookup.First.{value_of}
use tag_etl.Profile.Printer.{IsPlain, print_profile}
use tag_etl.Refresh.Dialogue.{AllAnswer, asked, refresh_public_radio-asked}
use tag_etl.Refresh.Settings.{get_refresh_setting-print_profile}
use tag_etl.Refresh.{RefreshParam, get_refresh_setting, refresh_public_radio}
use tag_etl.System.{web, Env, Link, World, close_socket, content, read_file}
use tag_etl.Text.Number.{to_uint, pos, atoi}
use tag_etl.Text.Trim.{trim_both, trim_left, trim_right}
use tag_etl.Text.{HasNoZero, codes, index_of, is_blank, is_quote}

abbrev idle : Link
idle = record { connected = false; num_ref = 0; locked = false; sql_conn = []; conn_locked = false }

abbrev start : World
start = record { calls = []; web_link = idle; local_link = idle }

abbrev radio_section : Section
radio_section = record {
  name = codes "FlushPublicRadioSetting";
  items =
      record { name = codes "servIp"; value = codes "10.0.0.9" }
      ∷ record { name = codes "servPort"; value = codes "9000" }
      ∷ record { name = codes "message"; value = codes "reload" }
      ∷ [];
}

-- Every call answers 5, the file is the section, and the server agrees.
abbrev agreeing : Env
agreeing = record {
  code = λ calls. 5;
  rows = λ calls. some [];
  file = λ calls. content (print_profile (radio_section ∷ []));
  received = λ calls. codes "REF_OK" ++ (0 ∷ codes "..");
  junk = λ calls. 0;
}

radio-IsPlain : IsPlain (radio_section ∷ [])
unfolding trim_both trim_left trim_right index_of is_blank is_quote
radio-IsPlain = (
  record { trimmed = refl; no_bracket = refl; no_line = refl },
  (
    record {
      name_trimmed = refl;
      value_trimmed = refl;
      no_bracket = refl;
      no_equals = refl;
      no_comment = refl;
      no_comment_value = refl;
      no_line = refl;
      no_line_value = refl;
    },
    (
      record {
        name_trimmed = refl;
        value_trimmed = refl;
        no_bracket = refl;
        no_equals = refl;
        no_comment = refl;
        no_comment_value = refl;
        no_line = refl;
        no_line_value = refl;
      },
      (
        record {
          name_trimmed = refl;
          value_trimmed = refl;
          no_bracket = refl;
          no_equals = refl;
          no_comment = refl;
          no_comment_value = refl;
          no_line = refl;
          no_line_value = refl;
        },
        tt,
      ),
    ),
  ),
  tt,
)

radio_clean : HasNoZero (print_profile (radio_section ∷ []))
unfolding print_profile
radio_clean = ground arith

get_refresh_setting-print_profile_example :
    get_refresh_setting agreeing (record { port = none; ip = []; msg = [] }) start
    ≡ some (
      (s_ok, record { port = some (pos 9000); ip = codes "10.0.0.9"; msg = codes "reload" }),
      record start { calls = read_file sys_config_pos ∷ [] },
    )
unfolding value_of atoi
get_refresh_setting-print_profile_example =
    get_refresh_setting-print_profile agreeing (record { port = none; ip = []; msg = [] }) start
      radio_section [] (codes "10.0.0.9") (codes "9000") (codes "reload") radio-IsPlain radio_clean
      refl refl refl refl

abbrev radio : RefreshParam
radio = record { port = some (pos 9000); ip = codes "10.0.0.9"; msg = codes "reload" }

all_answer : AllAnswer agreeing radio (pos 9000) start
all_answer = (λ e. ground arith, λ e. ground arith, λ e. ground arith, λ e. ground arith)

word_clean : HasNoZero (codes "REF_OK")
word_clean = ground arith

refresh_public_radio-asked_example :
    (code : ℕ) × (refresh_public_radio agreeing radio start
      ≡ some (code, record start { calls = close_socket 5 ∷ asked agreeing radio (pos 9000) [] }))
    × ((code ≡ s_ok) ↔ (codes "REF_OK" ≡ codes "REF_OK"))
refresh_public_radio-asked_example =
    refresh_public_radio-asked agreeing radio (pos 9000) start (codes "REF_OK") (codes "..") refl
      all_answer refl word_clean (omega arith)

abbrev web_section : Section
web_section = record {
  name = codes "WebMusic";
  items =
      record { name = codes "host"; value = codes "db" }
      ∷ record { name = codes "port"; value = codes "3306" }
      ∷ record { name = codes "dbName"; value = codes "music" }
      ∷ record { name = codes "userName"; value = codes "etl" }
      ∷ record { name = codes "passWord"; value = codes "secret" }
      ∷ [];
}

abbrev configured : Env
configured = record agreeing { file = λ calls. content (print_profile (web_section ∷ [])) }

abbrev web_param : ConnParam
web_param = record {
  host = codes "db";
  port = 3306;
  db_name = codes "music";
  user_name = codes "etl";
  passwd = codes "secret";
}

web-IsPlain : IsPlain (web_section ∷ [])
unfolding trim_both trim_left trim_right index_of is_blank is_quote
web-IsPlain = (
  record { trimmed = refl; no_bracket = refl; no_line = refl },
  (
    record {
      name_trimmed = refl;
      value_trimmed = refl;
      no_bracket = refl;
      no_equals = refl;
      no_comment = refl;
      no_comment_value = refl;
      no_line = refl;
      no_line_value = refl;
    },
    (
      record {
        name_trimmed = refl;
        value_trimmed = refl;
        no_bracket = refl;
        no_equals = refl;
        no_comment = refl;
        no_comment_value = refl;
        no_line = refl;
        no_line_value = refl;
      },
      (
        record {
          name_trimmed = refl;
          value_trimmed = refl;
          no_bracket = refl;
          no_equals = refl;
          no_comment = refl;
          no_comment_value = refl;
          no_line = refl;
          no_line_value = refl;
        },
        (
          record {
            name_trimmed = refl;
            value_trimmed = refl;
            no_bracket = refl;
            no_equals = refl;
            no_comment = refl;
            no_comment_value = refl;
            no_line = refl;
            no_line_value = refl;
          },
          (
            record {
              name_trimmed = refl;
              value_trimmed = refl;
              no_bracket = refl;
              no_equals = refl;
              no_comment = refl;
              no_comment_value = refl;
              no_line = refl;
              no_line_value = refl;
            },
            tt,
          ),
        ),
      ),
    ),
  ),
  tt,
)

web_clean : HasNoZero (print_profile (web_section ∷ []))
unfolding print_profile
web_clean = ground arith

connect_to_lib-print_profile_example :
    connect_to_lib configured web (codes "WebMusic") false start
    ≡ sql_conn configured web web_param (record start { calls = read_file db_config_pos ∷ [] })
unfolding value_of atoi trim_both trim_left trim_right is_blank to_uint
connect_to_lib-print_profile_example =
    connect_to_lib-print_profile configured web start web_section [] (codes "WebMusic")
      (codes "3306") web_param web-IsPlain web_clean refl (refl, refl)
      (refl, refl, refl, refl, refl, refl)
