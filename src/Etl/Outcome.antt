-- ===== src/Etl/Outcome.antt =====
-- What the code 0 of a run of tagEtl.cpp tells: how far it came, and what the servers confirmed.
use tag_etl.Codes.{s_ok}
use tag_etl.Etl.{checked, checked_with, flush_if_needed, finish, transfer, etl_do_work}
use tag_etl.Etl.Returns.{IsServed}
use tag_etl.Etl.Ends.{Starts-etl_do_work}
use tag_etl.Etl.Safety.Run.{etl_do_work-Guarded}
use tag_etl.Etl.Safety.{Guarded}
use tag_etl.MySqlHelper.Runs.{Any, AreIdle, IsSome}
use tag_etl.MySqlHelper.Runs.Room.{Rooms, Anywhere}
use tag_etl.MySqlHelper.Keeps.{Leads-execute_non_query}
use tag_etl.Prelude.{
  ℕ, Bool, true, false, List, [], ◌∷◌, ◌≡◌, refl, Option, none, some, ◌==◌, ◌&&◌, ◌||◌, arith,
}
use tag_etl.Refresh.Confirmed.{Confirmed, confirmed, Success-refresh_public_radio}
use tag_etl.Refresh.Keeps.{Keeps-refresh_public_radio}
use tag_etl.Refresh.{RefreshParam, refresh_public_radio}
use tag_etl.SongLib.Connection.Keeps.{Keeps-dis_conn_from_lib}
use tag_etl.SongLib.LocalLib.{SongMap, back_up_stable_tags}
use tag_etl.SongLib.WebLib.{WebSong}
use tag_etl.System.Keeps.{Stable, Leads, Leads-bind, Leads-weaken, Keeps-Leads, Upon, Upon-weaken}
use tag_etl.System.Success.{
  Always, Success, Success-after, Success-bind, Success-if, Success-pure, Success-test,
  Leads-Always, Upon-both,
}
use tag_etl.System.{Act, Call, Env, World, Returns, web, local, mysql_query, pure}
use tag_etl.Text.{Bytes, bytes_eq, codes}

abbrev back_up_sql : Bytes
back_up_sql =
    codes
      "insert into re_songs_music_tags_tmp(song_id,tag_id) select song_id,tag_id from v_re_songs_music_tags"

unfoldable pub is_back_up : Call → Bool
unfolding bytes_eq
is_back_up (mysql_query local sql) = bytes_eq sql back_up_sql
is_back_up _ = false

-- The copy of the tags, with the code 0 of the server.
unfoldable pub backed_up : Env → List Call → Bool
unfolding is_back_up
backed_up env [] = false
backed_up env (c ∷ calls) = is_back_up c && env.code (c ∷ calls) == s_ok || backed_up env calls

abbrev pub BackedUp : Env → List Call → Type 0
BackedUp env calls = backed_up env calls ≡ true

abbrev pub IsDone : Env → List Call → Type 0
IsDone env calls = BackedUp env calls × Confirmed env calls

Returns-both :
    (P : World → Type 0) (G : List Call → Type 0) (Q : ℕ → List Call → Type 0)
    (r : Option (ℕ × World))
    → Returns r (λ code w. Any code × P w × Anywhere w)
    → Upon (λ _. G) r
    → Upon Q r
    → Returns r (λ code w. P w × G w.calls × Q code w.calls)
Returns-both P G Q none h g q = h
Returns-both P G Q (some (code, w)) h g q = (h.1, g, q)

module _ (env : Env) where
  Stable-BackedUp : Stable (BackedUp env)
  unfolding backed_up
  Stable-BackedUp c h calls b = ground arith

  Stable-IsDone : Stable (IsDone env)
  unfolding confirmed
  Stable-IsDone c h calls (b, f) = (Stable-BackedUp c h calls b, ground arith)

  backed_up-call :
      (calls : List Call)
      → env.code (mysql_query local back_up_sql ∷ calls) ≡ 0
      → backed_up env (mysql_query local back_up_sql ∷ calls) ≡ true
  unfolding backed_up
  backed_up-call calls e = rw e refl

  Success-back_up : Leads Always (Success (BackedUp env)) (back_up_stable_tags env)
  unfolding back_up_stable_tags
  Success-back_up =
      Success-bind Always Always _ _ _ (Leads-weaken (Leads-Always Always _) (λ code c a z. tt))
        (Leads-execute_non_query Always (Success (BackedUp env)) env local _ _
          (λ calls _ e. backed_up-call calls e) (λ calls _ e. absurd (omega (arith, e))))
        (λ code n. Success-pure Always code n)

  Success-checked :
      (P R D : List Call → Type 0) (m k : Act ℕ)
      → Leads P (Success R) m
      → Leads R (Success D) k
      → Leads P (Success D) (checked env m k)
  unfolding checked
  Success-checked P R D m k hm hk =
      Success-bind P R m k _ hm hk λ code n. Success-after Always env _ code n

  -- A step of which nothing is told.
  Success-step :
      (D : List Call → Type 0) (m k : Act ℕ)
      → Leads Always (Success D) k
      → Leads Always (Success D) (checked env m k)
  Success-step D m k hk =
      Success-checked Always Always D m k (Leads-weaken (Leads-Always Always m) (λ code c a z. tt))
        hk

  Success-step_with :
      {A : Type 0} (D : List Call → Type 0) (m : Act (ℕ × A)) (k : A → Act ℕ)
      → ((a : A) → Leads Always (Success D) (k a))
      → Leads Always (Success D) (checked_with env m k)
  unfolding checked_with
  Success-step_with D m k hk =
      Leads-bind _ _ (Leads-Always Always m)
        λ r. Success-test r.0 (k r.1) _ (hk r.1) (Success-after Always env _ r.0)

  Success-refresh :
      (rp : RefreshParam)
      → Leads (BackedUp env) (Success (IsDone env)) (refresh_public_radio env rp)
  Success-refresh rp = record {
    at = λ w b.
        Upon-weaken (λ code c. BackedUp env c × Success (Confirmed env) code c)
          (Success (IsDone env)) (refresh_public_radio env rp w)
          (Upon-both (λ _. BackedUp env) (Success (Confirmed env)) (refresh_public_radio env rp w)
            ((Keeps-refresh_public_radio (BackedUp env) Stable-BackedUp env rp).at w b)
            ((Success-refresh_public_radio env rp).at w tt))
          (λ code c r z. (r.0, r.1 z));
  }

  Done-ok : Leads (IsDone env) (Success (IsDone env)) (pure s_ok)
  unfolding pure
  Done-ok = record { at = λ w d z. d }

  Success-finish : (rp : RefreshParam) → Leads Always (Success (IsDone env)) (finish env rp)
  unfolding finish
  Success-finish rp = Success-checked Always (BackedUp env) (IsDone env) _ _ Success-back_up (
      Success-checked (BackedUp env) (IsDone env) (IsDone env) _ _ (Success-refresh rp) (
        Leads-bind _ _
          (Keeps-Leads (Keeps-dis_conn_from_lib (IsDone env) Stable-IsDone env web false))
          λ _.
            Leads-bind _ _
              (Keeps-Leads (Keeps-dis_conn_from_lib (IsDone env) Stable-IsDone env local false))
              λ _. Done-ok))

  Success-transfer :
      (rp : RefreshParam) (s v : List WebSong) (songs : SongMap)
      → Leads Always (Success (IsDone env)) (transfer env rp s v songs)
  unfolding transfer
  Success-transfer rp s v songs = Success-step_with (IsDone env) _ _ λ tags.
      Success-step (IsDone env) _ _ (
        Leads-bind _ _ (Leads-Always Always (flush_if_needed env v songs))
          λ code. Success-if code _ (Success-finish rp))

  pub Success-etl_do_work :
      (rp : RefreshParam) → Leads Always (Success (IsDone env)) (etl_do_work env rp)
  unfolding etl_do_work
  Success-etl_do_work rp = Leads-bind _ _ (Leads-Always Always _) λ code. Success-if code _ (
      Success-step (IsDone env) _ _ (
        Success-step (IsDone env) _ _ (
          Success-step (IsDone env) _ _ (
            Success-step_with (IsDone env) _ _ λ s.
              Success-step_with (IsDone env) _ _
                λ v. Success-step_with (IsDone env) _ _ λ songs. Success-transfer rp s v songs))))

-- `EtlDoWork` ends from objects that are not in use and have room for one user more, with no call made, with the port of the radio
-- known, if the answers are of the form that the code takes. A code 0 then tells that the server of the local library has confirmed the
-- copy of its tags and that the radio has answered REF_OK; and whatever the code, the collected tags
-- of the web library are deleted only behind a confirmed deletion of the old relation.
pub etl_do_work-IsDone :
    (env : Env) (rp : RefreshParam) (w : World)
    → IsServed env
    → IsSome rp.port
    → AreIdle w
    → Rooms w
    → w.calls ≡ []
    → Returns
        (etl_do_work env rp w)
        (λ code w'. AreIdle w' × Guarded env w'.calls × Success (IsDone env) code w'.calls)
etl_do_work-IsDone env rp w h known i room e =
    Returns-both AreIdle (Guarded env) (Success (IsDone env)) (etl_do_work env rp w)
      ((Starts-etl_do_work env h rp known).at w i room) (etl_do_work-Guarded env rp w (rw e tt))
      ((Success-etl_do_work env rp).at w tt)
