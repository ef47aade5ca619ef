-- ===== src/Refresh/Keeps.antt =====
-- What `RefreshPublicRadio` keeps of the list of calls.
use tag_etl.Prelude.{ℕ, List}
use tag_etl.Refresh.{
  RefreshParam, socket_on, socket_connect, socket_send, socket_recv, socket_close, receive,
  exchange, refresh_public_radio,
}
use tag_etl.System.Keeps.{Keeps, Stable, keeps_rules}
use tag_etl.System.{Call, Env}
use tag_etl.Text.{Bytes}

module _ (P : List Call → Type 0) (stable : Stable P) (env : Env) where
  Keeps-socket_connect : (ip : Bytes) (port : ℕ) → Keeps P (socket_connect env ip port)
  unfolding socket_connect socket_on
  Keeps-socket_connect ip port = search keeps_rules depth 20

  Keeps-socket_send : (fd : ℕ) (msg : Bytes) → Keeps P (socket_send env fd msg)
  unfolding socket_send
  Keeps-socket_send fd msg = search keeps_rules depth 20

  Keeps-socket_recv : (fd size : ℕ) → Keeps P (socket_recv env fd size)
  unfolding socket_recv
  Keeps-socket_recv fd size = search keeps_rules depth 20

  Keeps-socket_close : (fd : ℕ) → Keeps P (socket_close env fd)
  unfolding socket_close
  Keeps-socket_close fd = search keeps_rules depth 20

  Keeps-receive : (fd : ℕ) → Keeps P (receive env fd)
  unfolding receive
  Keeps-receive fd = search (keeps_rules, Keeps-socket_recv, Keeps-socket_close) depth 20

  Keeps-exchange : (p : RefreshParam) (r : ℕ × ℕ) → Keeps P (exchange env p r)
  unfolding exchange
  Keeps-exchange p (code, fd) = search (keeps_rules, Keeps-socket_send, Keeps-receive) depth 20

  pub Keeps-refresh_public_radio : (p : RefreshParam) → Keeps P (refresh_public_radio env p)
  unfolding refresh_public_radio
  Keeps-refresh_public_radio p = search (keeps_rules, Keeps-socket_connect, Keeps-exchange) depth 20
