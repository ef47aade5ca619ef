-- ===== src/SongLib/Connection/FromFile.antt =====
-- `ConnectToLib` of songLib/lib.cpp on a configuration file that holds the printed text of a profile.
use tag_etl.Codes.{s_ok}
use tag_etl.MySqlHelper.{ConnParam, sql_conn}
use tag_etl.Prelude.{ℕ, ◌≡◌, refl, sym, ◌∙◌, false, List, [], ◌∷◌, Option, some, ◌||◌}
use tag_etl.Profile.Build.{Section}
use tag_etl.Profile.Load.Printed.{lift-some, load_profile-print_profile}
use tag_etl.Profile.Load.{db_config_pos, load_profile}
use tag_etl.Profile.Lookup.First.{value_of}
use tag_etl.Profile.Lookup.Getters.{get_profile_int_w-s_ok, get_profile_string_w-s_ok}
use tag_etl.Profile.Lookup.{get_profile_int_w, get_profile_string_w, is_empty}
use tag_etl.Profile.Printer.{IsPlain, print_profile}
use tag_etl.SongLib.Connection.{
  conn_param_in, conn_with, connect_to_lib, get_conn_param, int_field, loaded_param, string_field,
}
use tag_etl.System.{Db, Env, World, bind-some, branch, content, lift, pure, read_file}
use tag_etl.Text.Number.{ℤ, pos, atoi, to_uint}
use tag_etl.Text.Trim.{trim_both}
use tag_etl.Text.{Bytes, HasNoZero, codes, is_blank}

string_field-s_ok :
    (p : List Section) (sec key v : Bytes) (k : Bytes → Option (ℕ × ConnParam))
    → get_profile_string_w p sec key [] ≡ some (s_ok, v)
    → string_field p sec key k ≡ k v
unfolding string_field
string_field-s_ok p sec key v k e = rw (e, string_field) refl

int_field-s_ok :
    (p : List Section) (sec key : Bytes) (v : ℤ) (k : ℤ → Option (ℕ × ConnParam))
    → get_profile_int_w p sec key (pos 0) ≡ some (s_ok, v)
    → int_field p sec key k ≡ k v
unfolding int_field
int_field-s_ok p sec key v k e = rw (e, int_field) refl

-- The profile has the five settings of a connection under `sec`.
abbrev pub HasConn : List Section → Bytes → ConnParam → Bytes → Type 0
HasConn p sec cp port =
    (value_of p sec (codes "host") ≡ some cp.host)
    × (value_of p sec (codes "port") ≡ some port)
    × (cp.port ≡ to_uint (atoi port))
    × (value_of p sec (codes "dbName") ≡ some cp.db_name)
    × (value_of p sec (codes "userName") ≡ some cp.user_name)
    × (value_of p sec (codes "passWord") ≡ some cp.passwd)

-- A section's name that is not empty and has no blanks at its ends.
abbrev pub IsName : Bytes → Type 0
IsName sec = (is_empty sec ≡ false) × (trim_both is_blank sec ≡ sec)

conn_param_in-read :
    (p : List Section) (sec port : Bytes) (cp : ConnParam)
    → IsName sec
    → HasConn p sec cp port
    → conn_param_in p sec ≡ some (s_ok, cp)
unfolding conn_param_in trim_both is_blank
conn_param_in-read p sec port cp name h =
    let named : (is_empty sec || false) ≡ false = rw (name.0) refl in
    string_field-s_ok p sec (codes "host") cp.host _
      (get_profile_string_w-s_ok p sec (codes "host") [] cp.host named name.1 refl h.0)
    ∙ int_field-s_ok p sec (codes "port") (atoi port) _
        (get_profile_int_w-s_ok p sec (codes "port") port (pos 0) named name.1 refl h.1)
    ∙ string_field-s_ok p sec (codes "dbName") cp.db_name _
        (get_profile_string_w-s_ok p sec (codes "dbName") [] cp.db_name named name.1 refl h.3)
    ∙ string_field-s_ok p sec (codes "userName") cp.user_name _
        (get_profile_string_w-s_ok p sec (codes "userName") [] cp.user_name named name.1 refl h.4)
    ∙ string_field-s_ok p sec (codes "passWord") cp.passwd _
        (get_profile_string_w-s_ok p sec (codes "passWord") [] cp.passwd named name.1 refl h.5)
    ∙ λ i. some (s_ok, record cp { port = sym h.2 i })

-- `ConnectToLib` without the lock, on a configuration file that was written as the printed text of a
-- profile with no zero byte in it, reads the file and then is `SqlConn` with the address, the port as a
-- number, the database, the user and the password that the profile has in the section that is asked
-- for. The profile can be printed, has the five items, and the section's name is a trimmed one.
pub connect_to_lib-print_profile :
    (env : Env) (db : Db) (w : World) (s : Section) (rest : List Section) (sec port : Bytes)
    (cp : ConnParam)
    → IsPlain (s ∷ rest)
    → HasNoZero (print_profile (s ∷ rest))
    → env.file (read_file db_config_pos ∷ w.calls) ≡ content (print_profile (s ∷ rest))
    → IsName sec
    → HasConn (s ∷ rest) sec cp port
    → connect_to_lib env db sec false w
      ≡ sql_conn env db cp (record w { calls = read_file db_config_pos ∷ w.calls })
unfolding connect_to_lib get_conn_param loaded_param conn_with branch pure
connect_to_lib-print_profile env db w s rest sec port cp plain clean file name h =
    let p = s ∷ rest in
    let w' : World = record w { calls = read_file db_config_pos ∷ w.calls } in
    let read : get_conn_param env sec w ≡ some ((s_ok, cp), w') =
      bind-some (load_profile env [] db_config_pos) (λ loaded. lift (loaded_param sec loaded)) w w'
        (s_ok, p) (load_profile-print_profile env _ _ w s rest plain clean file)
      ∙ lift-some (conn_param_in p sec) w' (conn_param_in-read p sec port cp name h) in
    bind-some (get_conn_param env sec) (conn_with env db false) w w' (s_ok, cp) read
    ∙ bind-some {A = Unit {0}} (pure tt) (λ _. sql_conn env db cp) w' w' tt refl
