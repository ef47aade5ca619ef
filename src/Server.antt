-- ===== src/Server.antt =====
-- The server side of `CPacSocket` of utils/PacSocket.cpp. The system answers each call as a function of
-- the calls so far, the call itself in front; `none` is the answer -1. Nothing closes a descriptor.
use tag_etl.Codes.{
  s_ok, error_socket_accept_failed, error_socket_bind_failed, error_socket_create_failed,
  error_socket_listen_failed,
}
use tag_etl.Prelude.{ℕ, ◌%◌, ◌^◌, List, ◌∷◌, Option, none, some}

-- `bind` of a descriptor to a port, `listen` with a queue's length.
pub data Call : Type 0 where
  socket : Call
  bind listen : ℕ → ℕ → Call
  accept : ℕ → Call

pub record System : Type 0 where
  pub answer : List Call → Option ℕ

-- The code, the argument iSockfd behind the call, and the calls made.
abbrev pub Outcome : Type 0
Outcome = ℕ × ℕ × List Call

module _ (env : System) where
  listen_on : ℕ → ℕ → ℕ → List Call → Outcome
  listen_on fd backlog old calls = elim (env.answer (listen fd backlog ∷ calls)) [
    | none ↦ (error_socket_listen_failed, old, listen fd backlog ∷ calls)
    | some n ↦ (s_ok, fd, listen fd backlog ∷ calls)
  ]

  bind_to : ℕ → ℕ → ℕ → ℕ → List Call → Outcome
  unfolding listen_on
  bind_to fd port backlog old calls = elim (env.answer (bind fd port ∷ calls)) [
    | none ↦ (error_socket_bind_failed, old, bind fd port ∷ calls)
    | some n ↦ listen_on fd backlog old (bind fd port ∷ calls)
  ]

  -- htons keeps 16 bits of the port; the descriptor `old` is given back where a call fails.
  unfoldable pub socket_listen : ℕ → ℕ → ℕ → List Call → Outcome
  unfolding bind_to
  socket_listen port backlog old calls = elim (env.answer (socket ∷ calls)) [
    | none ↦ (error_socket_create_failed, old, socket ∷ calls)
    | some fd ↦ bind_to fd (port % 2 ^ 16) backlog old (socket ∷ calls)
  ]

  unfoldable pub socket_accept : ℕ → ℕ → List Call → Outcome
  socket_accept fd old calls = elim (env.answer (accept fd ∷ calls)) [
    | none ↦ (error_socket_accept_failed, old, accept fd ∷ calls)
    | some client ↦ (s_ok, client, accept fd ∷ calls)
  ]
