-- ===== src/Refresh/Dialogue.antt =====
-- The talk of `RefreshPublicRadio` of refresh/refresher.cpp with the radio server.
use tag_etl.Codes.{s_ok}
use tag_etl.Prelude.{
  ℕ, zero, suc, ◌<◌, ◌≡◌, ◌≢◌, ◌↔◌, refl, ap, ◌∙◌, false, List, [], ◌∷◌, ◌++◌, some, length, arith,
  ◌==◌,
}
use tag_etl.Refresh.{
  RefreshParam, c_string_within, exchange, minus_one, receive, refresh_public_radio, socket_close,
  socket_connect, socket_on, socket_recv, socket_send, verdict,
}
use tag_etl.System.{
  bind-some, Call, Env, World, ◌>>=◌, branch, lift, close_socket, connect, new_socket, pure, recv,
  send,
}
use tag_etl.Text.Number.{ℤ, to_uint}
use tag_etl.Text.{HasNoZero, Bytes, bytes_eq_iff, codes}

c_string_within-some :
    (n : ℕ) (text rest : Bytes)
    → HasNoZero text
    → length text < n
    → c_string_within n (text ++ (0 ∷ rest)) ≡ some text
unfolding c_string_within
c_string_within-some zero text rest h k = absurd (omega arith)
c_string_within-some (suc n) [] rest h k = refl
c_string_within-some (suc n) (c ∷ text) rest h k =
    let go_on : (c == 0) ≡ false = ground (arith, h.0) in
    rw (go_on, c_string_within-some n text rest h.1 (omega arith), c_string_within) refl

verdict-s_ok_iff : (s : Bytes) → (verdict s ≡ s_ok) ↔ (s ≡ codes "REF_OK")
unfolding verdict
verdict-s_ok_iff s =
    ground (arith, bytes_eq_iff s (codes "REF_OK"), bytes_eq_iff s (codes "REF_FAILD"))

-- The calls of the talk, the last in front.
abbrev pub asked : Env → RefreshParam → ℤ → List Call → List Call
asked env p port calls =
    let opened = new_socket ∷ calls in
    let fd = env.code opened in
    recv fd 12 ∷ send fd (p.msg ++ 0 ∷ []) ∷ connect fd p.ip (to_uint port) ∷ opened

-- None of the calls answers -1.
abbrev pub AllAnswer : Env → RefreshParam → ℤ → World → Type 0
AllAnswer env p port w =
    let opened = new_socket ∷ w.calls in
    let fd = env.code opened in
    let connected = connect fd p.ip (to_uint port) ∷ opened in
    let sent = send fd (p.msg ++ 0 ∷ []) ∷ connected in
    (fd ≢ minus_one)
    × (env.code connected ≢ minus_one)
    × (env.code sent ≢ minus_one)
    × (env.code (recv fd 12 ∷ sent) ≢ minus_one)

refused : (n : ℕ) → n ≢ minus_one → (n == minus_one) ≡ false
refused n h = ground arith

abbrev after : World → List Call → World
after w calls = record w { calls = calls }

module _ (env : Env) where
  socket_connect-fd :
      (ip : Bytes) (port : ℕ) (w : World)
      → env.code (new_socket ∷ w.calls) ≢ minus_one
      → env.code (connect (env.code (new_socket ∷ w.calls)) ip port ∷ new_socket ∷ w.calls)
        ≢ minus_one
      → socket_connect env ip port w
        ≡ some (
          (s_ok, env.code (new_socket ∷ w.calls)),
          after w (connect (env.code (new_socket ∷ w.calls)) ip port ∷ new_socket ∷ w.calls),
        )
  unfolding socket_connect socket_on ◌>>=◌
  socket_connect-fd ip port w h k = simp (refused _ h, refused _ k) refl

  socket_send-s_ok :
      (fd : ℕ) (msg : Bytes) (w : World)
      → env.code (send fd msg ∷ w.calls) ≢ minus_one
      → socket_send env fd msg w ≡ some (s_ok, after w (send fd msg ∷ w.calls))
  unfolding socket_send ◌>>=◌
  socket_send-s_ok fd msg w h = simp (refused _ h) refl

  receive-verdict :
      (fd : ℕ) (w : World) (text : Bytes)
      → env.code (recv fd 12 ∷ w.calls) ≢ minus_one
      → c_string_within 12 (env.received (recv fd 12 ∷ w.calls)) ≡ some text
      → receive env fd w ≡ some (verdict text, after w (close_socket fd ∷ recv fd 12 ∷ w.calls))
  unfolding receive socket_recv socket_close ◌>>=◌
  receive-verdict fd w text h e = simp (refused _ h, e) refl

-- Where the port is known, no call of the system answers -1 and the first 12 bytes that are received begin with a text and
-- its closing 0, `RefreshPublicRadio` sends the message with its closing 0, receives, closes the
-- socket and ends; it returns 0 exactly where the text is REF_OK.
pub refresh_public_radio-asked :
    (env : Env) (p : RefreshParam) (port : ℤ) (w : World) (text rest : Bytes)
    → p.port ≡ some port
    → AllAnswer env p port w
    → env.received (asked env p port w.calls) ≡ text ++ (0 ∷ rest)
    → HasNoZero text
    → length text < 12
    → (code : ℕ) × (refresh_public_radio env p w
        ≡ some (
          code,
          record w {
            calls = close_socket (env.code (new_socket ∷ w.calls)) ∷ asked env p port w.calls;
          },
        ))
      × ((code ≡ s_ok) ↔ (text ≡ codes "REF_OK"))
unfolding refresh_public_radio exchange branch lift ◌>>=◌
refresh_public_radio-asked env p port w text rest known h e clean short =
    let fd = env.code (new_socket ∷ w.calls) in
    let w1 = after w (connect fd p.ip (to_uint port) ∷ new_socket ∷ w.calls) in
    let w2 = after w1 (send fd (p.msg ++ 0 ∷ []) ∷ w1.calls) in
    let word = ap (c_string_within 12) e ∙ c_string_within-some 12 text rest clean short in
    (
      verdict text,
      rw known refl
          ∙ bind-some (socket_connect env p.ip (to_uint port)) (exchange env p) w w1 (s_ok, fd)
              (socket_connect-fd env p.ip (to_uint port) w h.0 h.1)
          ∙ bind-some (socket_send env fd (p.msg ++ 0 ∷ []))
              (λ sent. branch (sent == s_ok) (receive env fd) (pure sent)) w1 w2 s_ok
              (socket_send-s_ok env fd (p.msg ++ 0 ∷ []) w1 h.2)
          ∙ receive-verdict env fd w2 text h.3 word,
      verdict-s_ok_iff text,
    )
