-- ===== src/Refresh/Settings.antt =====
-- What `GetRefreshSetting` of refresh/refresher.cpp reads from a configuration file.
use tag_etl.Codes.{s_ok}
use tag_etl.Prelude.{ℕ, ◌≡◌, refl, ◌∙◌, List, [], ◌∷◌, Option, some}
use tag_etl.Profile.Build.{Section}
use tag_etl.Profile.Load.Printed.{lift-some, load_profile-print_profile}
use tag_etl.Profile.Load.{load_profile, sys_config_pos}
use tag_etl.Profile.Lookup.First.{value_of}
use tag_etl.Profile.Lookup.Getters.{get_profile_int_w-s_ok, get_profile_string_w-s_ok}
use tag_etl.Profile.Lookup.{get_profile_int_w, get_profile_string_w}
use tag_etl.Profile.Printer.{IsPlain, print_profile}
use tag_etl.Refresh.{
  RefreshParam, get_refresh_setting, int_setting, refresh_setting_in, string_setting,
}
use tag_etl.System.{Env, World, bind-some, content, lift, read_file}
use tag_etl.Text.Number.{ℤ, pos, atoi}
use tag_etl.Text.Trim.{trim_both}
use tag_etl.Text.{Bytes, HasNoZero, codes, is_blank}

abbrev setting : Bytes
setting = codes "FlushPublicRadioSetting"

string_setting-s_ok :
    (p : List Section) (key old v : Bytes) (k : Bytes → Option (ℕ × RefreshParam))
    (rp : RefreshParam)
    → get_profile_string_w p setting key old ≡ some (s_ok, v)
    → string_setting p key old k rp ≡ k v
unfolding string_setting
string_setting-s_ok p key old v k rp e = rw (e, string_setting) refl

int_setting-s_ok :
    (p : List Section) (key : Bytes) (v : ℤ) (k : ℤ → Option (ℕ × RefreshParam)) (rp : RefreshParam)
    → get_profile_int_w p setting key (pos 0) ≡ some (s_ok, v)
    → int_setting p key k rp ≡ k v
unfolding int_setting
int_setting-s_ok p key v k rp e = rw (e, int_setting) refl

refresh_setting_in-read :
    (rp : RefreshParam) (p : List Section) (ip port msg : Bytes)
    → value_of p setting (codes "servIp") ≡ some ip
    → value_of p setting (codes "servPort") ≡ some port
    → value_of p setting (codes "message") ≡ some msg
    → refresh_setting_in rp (s_ok, p)
      ≡ some (s_ok, record { port = some (atoi port); ip = ip; msg = msg })
unfolding refresh_setting_in trim_both is_blank
refresh_setting_in-read rp p ip port msg a b c =
    let e1 = get_profile_string_w-s_ok p setting (codes "servIp") rp.ip ip refl refl refl a in
    let e2 = get_profile_int_w-s_ok p setting (codes "servPort") port (pos 0) refl refl refl b in
    let e3 = get_profile_string_w-s_ok p setting (codes "message") rp.msg msg refl refl refl c in
    string_setting-s_ok p (codes "servIp") rp.ip ip _ rp e1
    ∙ int_setting-s_ok p (codes "servPort") (atoi port) _ (record rp { ip = ip }) e2
    ∙ string_setting-s_ok p (codes "message") rp.msg msg _
        (record rp { ip = ip; port = some (atoi port) }) e3

-- `GetRefreshSetting` of a configuration file that was written as the printed text of a profile, with no
-- zero byte in it, returns 0 and the address, the port as a number and the message that the profile
-- has under FlushPublicRadioSetting, with one call: the file is read. The profile can be printed, and
-- has the three items.
pub get_refresh_setting-print_profile :
    (env : Env) (rp : RefreshParam) (w : World) (s : Section) (rest : List Section)
    (ip port msg : Bytes)
    → IsPlain (s ∷ rest)
    → HasNoZero (print_profile (s ∷ rest))
    → env.file (read_file sys_config_pos ∷ w.calls) ≡ content (print_profile (s ∷ rest))
    → value_of (s ∷ rest) setting (codes "servIp") ≡ some ip
    → value_of (s ∷ rest) setting (codes "servPort") ≡ some port
    → value_of (s ∷ rest) setting (codes "message") ≡ some msg
    → get_refresh_setting env rp w
      ≡ some (
        (s_ok, record { port = some (atoi port); ip = ip; msg = msg }),
        record w { calls = read_file sys_config_pos ∷ w.calls },
      )
unfolding get_refresh_setting
get_refresh_setting-print_profile env rp w s rest ip port msg plain clean file a b c =
    let p = s ∷ rest in
    let w' : World = record w { calls = read_file sys_config_pos ∷ w.calls } in
    bind-some (load_profile env [] sys_config_pos) (λ loaded. lift (refresh_setting_in rp loaded)) w
      w' (s_ok, p) (load_profile-print_profile env _ _ w s rest plain clean file)
    ∙ lift-some (refresh_setting_in rp (s_ok, p)) w'
        (refresh_setting_in-read rp p ip port msg a b c)
