-- ===== src/Refresh/Confirmed.antt =====
-- What the code S_OK of `RefreshPublicRadio` tells of the radio's answer.
use tag_etl.Prelude.{
  ℕ, Bool, true, false, List, [], ◌∷◌, Option, none, some, ◌≡◌, refl, ◌==◌, ◌||◌, Bool-cases,
  Option-cases, inl, inr, arith,
}
use tag_etl.Refresh.{
  RefreshParam, minus_one, c_string_within, verdict, socket_recv, socket_close, receive, exchange,
  refresh_public_radio,
}
use tag_etl.System.Keeps.{Leads, Leads-bind}
use tag_etl.System.Success.{Always, Success, Success-if, Leads-Always}
use tag_etl.System.{Call, Env, recv, ◌>>=◌, pure, lift, branch, call, received_now}
use tag_etl.Text.{Bytes, bytes_eq, codes}

abbrev is_confirmation : Option Bytes → Bool
is_confirmation none = false
is_confirmation (some s) = bytes_eq s (codes "REF_OK")

-- The bytes of a recv are the radio's REF_OK.
unfoldable pub confirms : Env → Call → List Call → Bool
confirms env (recv fd n) calls =
    is_confirmation (c_string_within 12 (env.received (recv fd n ∷ calls)))
confirms env _ calls = false

unfoldable pub confirmed : Env → List Call → Bool
unfolding confirms
confirmed env [] = false
confirmed env (c ∷ calls) = confirms env c calls || confirmed env calls

abbrev pub Confirmed : Env → List Call → Type 0
Confirmed env calls = confirmed env calls ≡ true

verdict-ok : (s : Bytes) → verdict s ≡ 0 → bytes_eq s (codes "REF_OK") ≡ true
unfolding verdict
verdict-ok s h = elim (Bool-cases (bytes_eq s (codes "REF_OK"))) [
  | inl e ↦ e
  | inr e ↦ absurd (ground (arith, e, h))
]

module _ (env : Env) where
  Success-receive : (fd : ℕ) → Leads Always (Success (Confirmed env)) (receive env fd)
  unfolding receive socket_recv socket_close received_now lift branch pure call ◌>>=◌ confirmed
      confirms
  Success-receive fd = record {
    at = λ w _. elim (Bool-cases (env.code (recv fd 12 ∷ w.calls) == minus_one)) [
      | inl e ↦ rw e (λ z. absurd (omega (arith, z)))
      | inr e ↦
          rw e (elim (Option-cases (c_string_within 12 (env.received (recv fd 12 ∷ w.calls)))) [
            | inl n ↦ rw n tt
            | inr (s, h) ↦ rw h (λ z. rw (h, verdict-ok s z) refl)
          ])
    ];
  }

  Success-exchange :
      (p : RefreshParam) (r : ℕ × ℕ) → Leads Always (Success (Confirmed env)) (exchange env p r)
  unfolding exchange
  Success-exchange p (code, fd) =
      Success-if code _
        (Leads-bind _ _ (Leads-Always Always _) λ sent. Success-if sent _ (Success-receive fd))

  pub Success-refresh_public_radio :
      (p : RefreshParam) → Leads Always (Success (Confirmed env)) (refresh_public_radio env p)
  unfolding refresh_public_radio
  Success-refresh_public_radio p =
      Leads-bind _ _ (Leads-Always Always _)
        λ port. Leads-bind _ _ (Leads-Always Always _) λ r. Success-exchange p r
