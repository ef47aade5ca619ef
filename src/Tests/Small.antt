-- ===== src/Tests/Small.antt =====
-- The theorems on the smaller classes at concrete inputs.
use tag_etl.Codes.{s_ok, error_dev_not_exist, error_socket_bind_failed}
use tag_etl.FileLock.{fcntl, setlk, wrlck, write_lock}
use tag_etl.Directory.Entries.{HasFile, first_list, is_empty_dir-false_iff, second_list}
use tag_etl.Directory.{System, is_empty_dir}
use tag_etl.HttpClient.{
  Curl, no_signal, timeout_ms, write_function, write_data, url, get, new_http_client,
}
use tag_etl.Profile.Load.{c_string}
use tag_etl.Profile.Lookup.{get_profile_double_w, get_prof_value}
use tag_etl.LogWriter.Stamp.{IsDate}
use tag_etl.LogWriter.Written.{Holds, open_log-write_logs, write_logs}
use tag_etl.LogWriter.{LogWriter, new_log_writer, open_log}
use tag_etl.Logger.{Disk, Outside, Tm}
use tag_etl.MySqlHelper.Escape.{mysql_escape_character, mysql_escape_character-escaped}
use tag_etl.Prelude.{ℕ, ◌≡◌, ◌≢◌, ◌↔◌, refl, true, false, List, [], ◌∷◌, none, some, length, arith}
use tag_etl.Random.{IsBetween, random_int, random_int-IsBetween}
use tag_etl.Server.{socket_listen, accept, bind, listen, socket}
use tag_etl.Text.Number.{ℤ, pos, negsuc}
use tag_etl.Text.{Bytes, codes}

mysql_escape_character-escaped_example :
    mysql_escape_character (codes "it's \"x\"") ≡ some (codes "it\\'s \\\"x\\\"")
mysql_escape_character-escaped_example = mysql_escape_character-escaped (codes "it's \"x\"")

random_int-IsBetween_example :
    (z : ℤ) × (random_int 17 (negsuc 2) (pos 4) ≡ some z)
    × (random_int 17 (pos 4) (negsuc 2) ≡ some z)
    × IsBetween (negsuc 2) (pos 4) z
random_int-IsBetween_example = random_int-IsBetween 17 (negsuc 2) (pos 4) refl refl refl refl refl

random_run : random_int 17 (pos 4) (negsuc 2) ≡ some (pos 0)
unfolding random_int
random_run = refl

-- 7 January 2024, 9:05:30
abbrev morning : Tm
morning = record { tm_sec = 30; tm_min = 5; tm_hour = 9; tm_mday = 7; tm_mon = 0; tm_year = 124 }

abbrev machine : Outside
machine = record {
  now = λ n. morning;
  date = λ n. [];
  position = λ n s. pos 0;
  links = λ n. true;
  unlinks = λ n. true;
  opens = λ n. true;
  user = λ s. none;
  group = λ s. none;
  own_user = 0;
  own_group = 0;
}

abbrev empty_disk : Disk
empty_disk = record { files = λ p. none; owners = []; calls = 0 }

morning_IsDate : (n : ℕ) → IsDate (machine.now n)
morning_IsDate n = (omega arith, omega arith, omega arith, omega arith, omega arith, omega arith)

open_log-write_logs_example :
    (l' : LogWriter) × ((open_log machine (codes "run.log") (new_log_writer empty_disk)).0 ≡ s_ok)
    × (write_logs machine
          (codes "a" ∷ codes "b" ∷ [])
          (open_log machine (codes "run.log") (new_log_writer empty_disk)).1
        ≡ some l')
    × (l'.path ≡ codes "run.log")
    × Holds empty_disk l' (codes "[2024-01-07 09:05:30]:a\n[2024-01-07 09:05:30]:b\n")
unfolding new_log_writer
open_log-write_logs_example =
    open_log-write_logs machine morning_IsDate (codes "run.log") (codes "a" ∷ codes "b" ∷ [])
      (new_log_writer empty_disk) refl refl refl
      (refl, (omega arith, tt), (refl, (omega arith, tt), tt))

-- Every directory holds one file.
abbrev one_file : System
one_file = record {
  succeeds = λ calls. true;
  entries = λ calls. some (codes "." ∷ codes ".." ∷ codes "a" ∷ []);
}

is_empty_dir-false_iff_example : ((is_empty_dir one_file (codes "d") []).0 ≡ false) ↔ (
    (names : List Bytes) × (false ≡ false)
    × (first_list one_file (codes "d") [] ≢ none)
    × (second_list one_file (codes "d") [] ≡ some names)
    × HasFile names)
is_empty_dir-false_iff_example = is_empty_dir-false_iff one_file (codes "d") []

-- A site that answers each URL in two parts.
abbrev two_parts : Curl
two_parts = record {
  parts = λ options. elim options [
    | [] ↦ []
    | o ∷ rest ↦ elim o [
      | no_signal n ↦ []
      | timeout_ms n ↦ []
      | write_function ↦ []
      | write_data ↦ []
      | url u ↦
          record { size = 1; nmemb = 2; buffer = codes "ab" }
          ∷ record { size = 1; nmemb = 3; buffer = u }
          ∷ []
    ]
  ];
}

-- The body of the second page does not stand behind that of the first.
http_run :
    (get two_parts (codes "xyz") (get two_parts (codes "uvw") new_http_client).1).0 ≡ codes "abxyz"
unfolding get new_http_client c_string
http_run = refl

-- dValue keeps its value where there is no such item.
double_run :
    get_profile_double_w length [] (codes "a") (codes "b") 5 ≡ some (error_dev_not_exist, 5)
unfolding get_profile_double_w get_prof_value
double_run = refl

-- The port does not come free: the descriptor of the argument stays, the new one is left open.
listen_run :
    socket_listen
      (record {
        answer = λ calls. elim calls [
          | [] ↦ none
          | call ∷ rest ↦ elim call [
            | socket ↦ some 5
            | bind fd port ↦ none
            | listen fd n ↦ some 0
            | accept fd ↦ none
          ]
        ];
      })
      80
      10
      0
      []
    ≡ (error_socket_bind_failed, 0, bind 5 80 ∷ socket ∷ [])
unfolding socket_listen
listen_run = refl

-- Another process holds the lock (EAGAIN), and the answer is as if it was taken.
lock_run :
    write_lock
      (record { errno = λ calls. some 11; eintr = 4 })
      (record { start = pos 0; len = pos 1; whence = pos 0 })
      []
    ≡ (true, fcntl setlk wrlck (record { start = pos 0; len = pos 1; whence = pos 0 }) ∷ [])
unfolding write_lock
lock_run = refl
