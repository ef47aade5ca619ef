-- ===== src/Etl/Safety.antt =====
-- No collected tag is lost on the way: what the order of the calls in tagEtl.cpp guarantees.
pub mod Run
use tag_etl.Codes.{s_ok, error_not_connected}
use tag_etl.Etl.Keeps.{
  Keeps-initialize_logger, Keeps-search_file_init, Keeps-match_songs, Keeps-checked,
  Keeps-checked_with, Keeps-finish, Keeps-logged_error,
}
use tag_etl.Etl.{
  checked, checked_with, flush_var_tags, flush_if_needed, finish, transfer, etl_do_work,
}
use tag_etl.MySqlHelper.Keeps.{Leads-execute_non_query}
use tag_etl.Prelude.{
  ℕ, Bool, true, false, List, [], ◌∷◌, ◌++◌, ◌≡◌, refl, ◌==◌, ==_iff, if◌then◌else◌, ◌&&◌, ◌||◌,
  arith, Bool-cases, inl, inr,
}
use tag_etl.Refresh.{RefreshParam}
use tag_etl.SongLib.Connection.Keeps.{Keeps-connect_to_lib}
use tag_etl.SongLib.LocalLib.Keeps.{
  Keeps-load_songs, Keeps-logged_statement, Keeps-store_stable_tags, Keeps-store_var_tags,
}
use tag_etl.SongLib.LocalLib.{
  SongMap, SidTag, load_songs, logged_statement, clean_local_var_tags_relation, store_var_tags,
}
use tag_etl.SongLib.WebLib.Keeps.{
  Keeps-load_web_songs, Keeps-load_web_var_songs, Keeps-need_flush_var_tags,
}
use tag_etl.SongLib.WebLib.{WebSong, load_web_songs, load_web_var_songs, clean_web_old_var_tags}
use tag_etl.System.Keeps.{
  Keeps, Leads, Upon, Stable, is_delete, keeps_rules, Leads-bind, Leads-weaken, Keeps-Leads,
  Leads-Keeps, Keeps-pure, Keeps-branch, Keeps-bind,
}
use tag_etl.System.{
  Act, Db, web, local, Call, Env, World, mysql_query, ◌>>=◌, ◌>>◌, pure, branch, call, logged,
  error, info,
}
use tag_etl.Text.{Bytes, bytes_eq, codes}

abbrev web_clean_sql : Bytes
web_clean_sql = codes "delete from re_songs_vartags"

abbrev local_clean_sql : Bytes
local_clean_sql = codes "delete from re_songs_music_vartags"

-- The web library's collected tags are deleted.
unfoldable pub is_web_clean : Call → Bool
unfolding bytes_eq
is_web_clean (mysql_query web sql) = bytes_eq sql web_clean_sql
is_web_clean _ = false

unfoldable pub is_local_clean : Call → Bool
unfolding bytes_eq
is_local_clean (mysql_query local sql) = bytes_eq sql local_clean_sql
is_local_clean _ = false

-- A deletion of the old relation that the server has confirmed.
unfoldable pub local_cleaned : Env → List Call → Bool
unfolding is_local_clean
local_cleaned env [] = false
local_cleaned env (c ∷ calls) =
    is_local_clean c && env.code (c ∷ calls) == s_ok || local_cleaned env calls

-- Every deletion of the collected tags has such a deletion of the old relation before it.
abbrev pub Guarded : Env → List Call → Type 0
Guarded env [] = Unit
Guarded env (c ∷ calls) =
    ((if is_web_clean c then local_cleaned env calls else true) ≡ true) × Guarded env calls

abbrev pub Cleaned : Env → List Call → Type 0
Cleaned env calls = Guarded env calls × (local_cleaned env calls ≡ true)

-- A statement's code, and what S_OK adds.
abbrev Then : (List Call → Type 0) → (List Call → Type 0) → ℕ → List Call → Type 0
Then P R code calls = P calls × (code ≡ 0 → R calls)

no_web_clean : (c : Call) → is_delete c ≡ false → is_web_clean c ≡ false
unfolding is_web_clean
no_web_clean (mysql_query web []) h = refl
no_web_clean (mysql_query web (x ∷ xs)) h = elim (Bool-cases (x == b'd')) [
  | inl e ↦ absurd (ground (arith, e, h))
  | inr e ↦ rw e refl
]
no_web_clean (mysql_query local sql) h = refl
no_web_clean _ h = refl

module _ (env : Env) where
  pub Stable-Guarded : Stable (Guarded env)
  Stable-Guarded c h calls g = (rw (no_web_clean c h) refl, g)

  Stable-Cleaned : Stable (Cleaned env)
  unfolding local_cleaned
  Stable-Cleaned c h calls (g, l) = (Stable-Guarded c h calls g, ground arith)

  local_cleaned-call :
      (calls : List Call)
      → env.code (mysql_query local local_clean_sql ∷ calls) ≡ 0
      → local_cleaned env (mysql_query local local_clean_sql ∷ calls) ≡ true
  unfolding local_cleaned
  local_cleaned-call calls e = rw e refl

  -- Behind an error nothing more is asked.
  Leads-logged_error :
      (P R : List Call → Type 0) (stable : Stable P) (code : ℕ) (k : Act ℕ)
      (Q : ℕ → List Call → Type 0)
      → Leads (λ c. P c × R c) Q k
      → ((code : ℕ) (calls : List Call) → P calls → (code ≡ 0 → ⊥) → Q code calls)
      → Leads
          (Then P R code)
          Q
          (branch (code == s_ok) k (call env (logged error code) >> pure code))
  unfolding branch call pure ◌>>=◌
  Leads-logged_error P R stable code k Q hk hq = elim (Bool-cases (code == s_ok)) [
    | inl e ↦ rw e (record { at = λ w h. hk.at w (h.0, h.1 ((==_iff code 0).0 e)) })
    | inr e ↦ rw e (record {
      at = λ w h.
          hq code (logged error code ∷ w.calls) (stable (logged error code) refl w.calls h.0)
            (λ z. ground (arith, e, z));
    })
  ]

  Confirmed : List Call → Type 0
  Confirmed calls = local_cleaned env calls ≡ true

  Leads-local_clean :
      Leads (Guarded env) (Then (Guarded env) Confirmed) (logged_statement env local_clean_sql)
  unfolding logged_statement Confirmed pure is_web_clean
  Leads-local_clean =
      Leads-bind _ _
        (Leads-execute_non_query (Guarded env) (Then (Guarded env) Confirmed) env local b'd'
          (codes "elete from re_songs_music_vartags")
          (λ calls g. ((refl, g), λ e. local_cleaned-call calls e))
          (λ calls g. (g, λ e. absurd (omega (arith, e)))))
        λ code.
          Leads-logged_error (Guarded env) Confirmed Stable-Guarded code (pure code)
            (Then (Guarded env) Confirmed) (record { at = λ w h. (h.0, λ e. h.1) })
            (λ code' calls g n. (g, λ e. absurd (n e)))

  Leads-clean_local :
      Leads (Guarded env) (Then (Guarded env) Confirmed) (clean_local_var_tags_relation env)
  unfolding clean_local_var_tags_relation branch call pure ◌>>=◌
  Leads-clean_local =
      Leads-bind _ _ (Keeps-Leads (Keeps-logged_statement (Guarded env) Stable-Guarded env _))
        λ code. elim (Bool-cases (code == 0)) [
          | inl e ↦ rw e (record {
            at = λ w h.
                Leads-local_clean.at (record w { calls = logged info 0 ∷ w.calls })
                  (Stable-Guarded (logged info 0) refl w.calls h);
          })
          | inr e ↦ rw e (record { at = λ w h. (h, λ z. absurd (ground (arith, e, z))) })
        ]

  Leads-checked :
      (P0 R : List Call → Type 0) (m k : Act ℕ)
      → Leads P0 (Then (Guarded env) R) m
      → Leads (λ c. Guarded env c × R c) (λ _. Guarded env) k
      → Leads P0 (λ _. Guarded env) (checked env m k)
  unfolding checked
  Leads-checked P0 R m k hm hk = Leads-bind _ _ hm λ code.
      Leads-logged_error (Guarded env) R Stable-Guarded code k (λ _. Guarded env) hk
        (λ _ calls g n. g)

  Leads-clean_web :
      Leads (Cleaned env) (Then (Guarded env) (λ _. Unit {0})) (clean_web_old_var_tags env)
  unfolding clean_web_old_var_tags is_web_clean
  Leads-clean_web =
      Leads-execute_non_query (Cleaned env) (Then (Guarded env) (λ _. Unit {0})) env web _ _
        (λ calls h. ((h.1, h.0), λ e. tt)) (λ calls h. (h.0, λ e. tt))

  Keeps-flush_var_tags :
      (v : List WebSong) (songs : SongMap) → Keeps (Guarded env) (flush_var_tags env v songs)
  unfolding flush_var_tags Confirmed pure
  Keeps-flush_var_tags v songs =
      Keeps-checked_with (Guarded env) Stable-Guarded env _ _
        (Keeps-match_songs (Guarded env) Stable-Guarded env v songs [])
        λ tags. Leads-Keeps (
          Leads-checked (Guarded env) Confirmed _ _ Leads-clean_local (
            Leads-checked (Cleaned env) Confirmed _ _
              (Leads-weaken
                (Keeps-Leads (Keeps-store_var_tags (Cleaned env) Stable-Cleaned env tags))
                (λ code calls h. (h.0, λ e. h.1)))
              (Leads-checked (Cleaned env) (λ _. Unit {0}) _ _ Leads-clean_web
                (record { at = λ w h. h.0 }))))

  pub Keeps-flush_if_needed :
      (v : List WebSong) (songs : SongMap) → Keeps (Guarded env) (flush_if_needed env v songs)
  unfolding flush_if_needed
  Keeps-flush_if_needed v songs =
      Keeps-bind _ _ (Keeps-need_flush_var_tags (Guarded env) Stable-Guarded env)
        λ needed. Keeps-branch needed _ _ (Keeps-flush_var_tags v songs) (Keeps-pure s_ok)
