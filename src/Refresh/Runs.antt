-- ===== src/Refresh/Runs.antt =====
-- The methods of `CRefresher` of refresh/refresher.cpp return.
use tag_etl.Codes.{s_ok}
use tag_etl.MySqlHelper.Runs.Statements.{runs_rules}
use tag_etl.MySqlHelper.Runs.{
  Runs, Any, IsSome, Runs-bind, Runs-then, Runs-branch, Runs-pure-Any, Runs-received_now,
  Runs-lift-Any, Runs-lift, Runs-call_file,
}
use tag_etl.Prelude.{ℕ, List, [], ◌∷◌, ◌++◌, Option, some, ◌==◌, none, ◌>>=◌ as ◌>>=ₒ◌, refl}
use tag_etl.Profile.Build.{Section}
use tag_etl.Profile.Load.{profile_of, load_profile}
use tag_etl.Refresh.{
  RefreshParam, socket_on, socket_connect, socket_send, socket_recv, socket_close, receive,
  exchange, refresh_public_radio, c_string_within, verdict, refresh_setting_in, get_refresh_setting,
}
use tag_etl.System.{Call, Env, File, lift}
use tag_etl.Text.Number.{ℤ}
use tag_etl.Text.{Bytes}

module _ (env : Env) where
  Runs-socket_connect : (ip : Bytes) (port : ℕ) → Runs Any (socket_connect env ip port)
  unfolding socket_connect socket_on
  Runs-socket_connect ip port = search runs_rules depth 20

  Runs-socket_send : (fd : ℕ) (msg : Bytes) → Runs Any (socket_send env fd msg)
  unfolding socket_send
  Runs-socket_send fd msg = search runs_rules depth 20

  Runs-socket_recv : (fd size : ℕ) → Runs Any (socket_recv env fd size)
  unfolding socket_recv
  Runs-socket_recv fd size = search runs_rules depth 20

  Runs-socket_close : (fd : ℕ) → Runs Any (socket_close env fd)
  unfolding socket_close
  Runs-socket_close fd = search runs_rules depth 20

  -- What was received ends within its buffer.
  module _ (ends : (calls : List Call) → IsSome (c_string_within 12 (env.received calls))) where
    Runs-receive : (fd : ℕ) → Runs Any (receive env fd)
    unfolding receive
    Runs-receive fd = Runs-then _ _ (Runs-socket_recv fd 12) λ code.
        Runs-bind _ _ (Runs-received_now env (λ s. IsSome (c_string_within 12 s)) ends) λ buffer h.
          Runs-then _ _ (Runs-socket_close fd) λ _.
            Runs-branch (code == s_ok) _ _
              (Runs-then _ _ (Runs-lift-Any _ h) λ s. Runs-pure-Any (verdict s))
              (Runs-pure-Any code)

    Runs-exchange : (p : RefreshParam) (r : ℕ × ℕ) → Runs Any (exchange env p r)
    unfolding exchange
    Runs-exchange p (code, fd) =
        Runs-branch (code == s_ok) _ _
          (Runs-then _ _ (Runs-socket_send fd (p.msg ++ 0 ∷ []))
            λ sent. Runs-branch (sent == s_ok) _ _ (Runs-receive fd) (Runs-pure-Any sent))
          (Runs-pure-Any code)

    pub Runs-refresh_public_radio :
        (p : RefreshParam) → IsSome p.port → Runs Any (refresh_public_radio env p)
    unfolding refresh_public_radio
    Runs-refresh_public_radio p known =
        Runs-then _ _ (Runs-lift-Any _ known)
          λ port. Runs-then _ _ (Runs-socket_connect p.ip _) λ opened. Runs-exchange p opened

-- The port that a file gives.
abbrev pub port_in : RefreshParam → File → Option ℤ
port_in rp f = profile_of [] f >>=ₒ λ r. refresh_setting_in rp r >>=ₒ λ s. s.1.port

lift-known :
    (o : Option (ℕ × RefreshParam))
    → IsSome (o >>=ₒ λ s. s.1.port)
    → Runs (λ s. IsSome s.1.port) (lift o)
lift-known none h = absurd h
lift-known (some s) h = Runs-lift (some s) s refl h

Runs-setting_in :
    (rp : RefreshParam) (o : Option (ℕ × List Section))
    → IsSome (o >>=ₒ λ r. refresh_setting_in rp r >>=ₒ λ s. s.1.port)
    → Runs (λ r. IsSome (refresh_setting_in rp r >>=ₒ λ s. s.1.port)) (lift o)
Runs-setting_in rp none h = absurd h
Runs-setting_in rp (some r) h = Runs-lift (some r) r refl h

pub Runs-get_refresh_setting :
    (env : Env) (rp : RefreshParam)
    → ((calls : List Call) → IsSome (port_in rp (env.file calls)))
    → Runs (λ s. IsSome s.1.port) (get_refresh_setting env rp)
unfolding get_refresh_setting load_profile
Runs-get_refresh_setting env rp files =
    Runs-bind _ _
      (Runs-bind _ _ (Runs-call_file env _ (λ f. IsSome (port_in rp f)) files)
        λ f h. Runs-setting_in rp (profile_of [] f) h)
      λ r h. lift-known (refresh_setting_in rp r) h
