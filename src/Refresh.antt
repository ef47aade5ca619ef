-- ===== src/Refresh.antt =====
-- `CPacSocket` of utils/PacSocket.cpp, and `CRefresher` of refresh/refresher.cpp, which tells the
-- radio server to read the tags again.
pub mod Keeps
pub mod Runs
pub mod Confirmed
pub mod Dialogue
pub mod Settings
use tag_etl.Codes.{
  s_ok, error_ref_failed, error_ref_invalid_msg, error_socket_create_failed,
  error_socket_connect_failed, error_socket_send_failed, error_socket_recv_failed,
}
use tag_etl.Prelude.{
  ℕ, zero, suc, ◌-◌, ◌^◌, true, false, List, [], ◌∷◌, ◌++◌, Option, none, some, ◌==◌, if◌then◌else◌,
}
use tag_etl.Profile.Build.{Section}
use tag_etl.Profile.Load.{sys_config_pos, load_profile}
use tag_etl.Profile.Lookup.{get_profile_string_w, get_profile_int_w}
use tag_etl.System.{
  Env, Act, ◌>>=◌, ◌>>◌, pure, lift, branch, call, new_socket, received_now, connect, send, recv,
  close_socket,
}
use tag_etl.Text.Number.{ℤ, pos, to_uint}
use tag_etl.Text.{Bytes, bytes_eq, codes}

-- iPort is `none` until it is read: the constructor leaves it uninitialised.
pub record RefreshParam : Type 0 where
  pub port : Option ℤ
  pub ip : Bytes
  pub msg : Bytes

-- The answer -1 of a system call.
abbrev pub minus_one : ℕ
minus_one = 2 ^ 32 - 1

module _ (env : Env) where
  socket_on : Bytes → ℕ → ℕ → Act (ℕ × ℕ)
  socket_on ip port fd = branch (fd == minus_one) (pure (error_socket_create_failed, 0)) do
    answer ← call env (connect fd ip port)
    pure (if answer == minus_one then (error_socket_connect_failed, 0) else (s_ok, fd))

  -- The code and the descriptor; one that does not connect is not closed.
  unfoldable pub socket_connect : Bytes → ℕ → Act (ℕ × ℕ)
  unfolding socket_on
  socket_connect ip port = do fd ← call env new_socket; socket_on ip port fd

  unfoldable pub socket_send : ℕ → Bytes → Act ℕ
  socket_send fd msg = do
    answer ← call env (send fd msg)
    pure (if answer == minus_one then error_socket_send_failed else s_ok)

  unfoldable pub socket_recv : ℕ → ℕ → Act ℕ
  socket_recv fd size = do
    answer ← call env (recv fd size)
    pure (if answer == minus_one then error_socket_recv_failed else s_ok)

  unfoldable pub socket_close : ℕ → Act (Unit {0})
  socket_close fd = do call env (close_socket fd); pure tt

-- A C string in the first `n` bytes; without a zero byte there, strcmp reads on beyond them.
unfoldable pub c_string_within : ℕ → Bytes → Option Bytes
c_string_within zero s = none
c_string_within (suc n) [] = none
c_string_within (suc n) (c ∷ cs) = elim (c == 0) [
  | true ↦ some []
  | false ↦ elim (c_string_within n cs) [ none ↦ none | some rest ↦ some (c ∷ rest) ]
]

unfoldable pub verdict : Bytes → ℕ
unfolding bytes_eq
verdict s =
    if bytes_eq s (codes "REF_OK")
    then s_ok
    else if bytes_eq s (codes "REF_FAILD")
    then error_ref_failed
    else error_ref_invalid_msg

module _ (env : Env) where
  receive : ℕ → Act ℕ
  receive fd = do
    code ← socket_recv env fd 12
    buffer ← received_now env
    socket_close env fd
    branch (code == s_ok) (do s ← lift (c_string_within 12 buffer); pure (verdict s)) (pure code)

  exchange : RefreshParam → ℕ × ℕ → Act ℕ
  exchange p (code, fd) =
      branch (code == s_ok)
        (do
          sent ← socket_send env fd (p.msg ++ 0 ∷ [])
          branch (sent == s_ok) (receive fd) (pure sent))
        (pure code)

  -- A send that fails leaves the socket open.
  unfoldable pub refresh_public_radio : RefreshParam → Act ℕ
  unfolding exchange receive socket_connect socket_send socket_recv socket_close received_now
      c_string_within verdict
  refresh_public_radio p = do
    port ← lift p.port
    opened ← socket_connect env p.ip (to_uint port)
    exchange p opened

-- `uRet = f(…) != 0` keeps the comparison: 1 stands for every code.
abbrev as_flag : ℕ → ℕ
as_flag code = if code == s_ok then 0 else 1

string_setting :
    List Section
    → Bytes
    → Bytes
    → (Bytes → Option (ℕ × RefreshParam))
    → RefreshParam
    → Option (ℕ × RefreshParam)
string_setting p key old k rp =
    elim (get_profile_string_w p (codes "FlushPublicRadioSetting") key old) [
      | none ↦ none
      | some (code, v) ↦ if code == s_ok then k v else some (as_flag code, rp)
    ]

-- An error leaves the old number, which is not read here.
int_setting :
    List Section
    → Bytes
    → (ℤ → Option (ℕ × RefreshParam))
    → RefreshParam
    → Option (ℕ × RefreshParam)
int_setting p key k rp = elim (get_profile_int_w p (codes "FlushPublicRadioSetting") key (pos 0)) [
  | none ↦ none
  | some (code, v) ↦ if code == s_ok then k v else some (as_flag code, rp)
]

-- The settings in their order; an error keeps those that were read.
unfoldable pub refresh_setting_in : RefreshParam → ℕ × List Section → Option (ℕ × RefreshParam)
unfolding string_setting int_setting
refresh_setting_in rp (code, p) =
    if code == s_ok
    then string_setting p (codes "servIp") rp.ip
        (λ ip.
          int_setting p (codes "servPort")
            (λ port.
              string_setting p (codes "message") rp.msg
                (λ msg. some (s_ok, record { port = some port; ip = ip; msg = msg }))
                (record rp { ip = ip; port = some port }))
            (record rp { ip = ip }))
        rp
    else some (code, rp)

unfoldable pub get_refresh_setting : Env → RefreshParam → Act (ℕ × RefreshParam)
unfolding refresh_setting_in load_profile
get_refresh_setting env rp = do
  loaded ← load_profile env [] sys_config_pos
  lift (refresh_setting_in rp loaded)
