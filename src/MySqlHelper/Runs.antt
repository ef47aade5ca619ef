-- ===== src/MySqlHelper/Runs.antt =====
-- What it is for an action to return: from worlds whose two links are idle, with the links idle again.
pub mod Statements
pub mod Room
use tag_etl.MySqlHelper.Connection.{IsIdle, sql_conn-IsIdle, Closed, sql_close-Closed}
use tag_etl.MySqlHelper.Frames.{Frames-sql_conn, Frames-sql_close}
use tag_etl.MySqlHelper.Queries.{
  execute_non_query-eq, execute_query-eq, query_result, after_query, statement_code,
  after_statement,
}
use tag_etl.MySqlHelper.{
  ConnParam, sql_conn, sql_close, destroy, execute_non_query, execute_query, fetch_one_row, stored,
}
use tag_etl.Prelude.{
  ℕ, Bool, true, false, List, [], ◌∷◌, Option, none, some, ◌≡◌, refl, ◌==◌, Bool-cases, inl, inr,
  if◌then◌else◌, ◌>>=◌ as ◌>>=ₒ◌,
}
use tag_etl.System.Frames.{Frames, Returns-Frames}
use tag_etl.System.{
  Db, web, local, Call, Env, World, Act, Row, File, Returns, Returns-map, link_of, pure, lift,
  branch, get_link, call, call_file, received_now, uninitialised, ◌>>=◌, mysql_query,
  mysql_store_result, record_call,
}
use tag_etl.Text.{Bytes}

abbrev pub AreIdle : World → Type 0
AreIdle w = IsIdle w.web_link × IsIdle w.local_link

-- From idle links the action returns, with a result of `Q` and idle links.
pub record Runs {A : Type 0} (Q : A → Type 0) (m : Act A) : Type 0 where
  pub at : (w : World) → AreIdle w → Returns (m w) (λ a w'. Q a × AreIdle w')

abbrev pub All : {A : Type 0} → (A → Type 0) → List A → Type 0
All P [] = Unit
All P (x ∷ xs) = P x × All P xs

abbrev pub Any : {A : Type 0} → A → Type 0
Any a = Unit

pub Returns-bind :
    {A B : Type 0} (P : A → World → Type 0) (R : B → World → Type 0) (r : Option (A × World))
    (f : A → Act B)
    → Returns r P
    → ((a : A) (w : World) → P a w → Returns (f a w) R)
    → Returns (elim r [ none ↦ none | some (a, w) ↦ f a w ]) R
Returns-bind P R none f h k = h
Returns-bind P R (some (a, w)) f h k = k a w h

pub Runs-bind :
    {A B : Type 0} {Q : A → Type 0} {R : B → Type 0} (m : Act A) (f : A → Act B)
    → Runs Q m
    → ((a : A) → Q a → Runs R (f a))
    → Runs R (m >>= f)
unfolding ◌>>=◌
Runs-bind {Q = Q} {R = R} m f hm hf = record {
  at = λ w i.
      Returns-bind (λ a w'. Q a × AreIdle w') (λ b w'. R b × AreIdle w') (m w) f (hm.at w i)
        (λ a w' h. (hf a h.0).at w' h.1);
}

pub Runs-weaken :
    {A : Type 0} {Q R : A → Type 0} (m : Act A) → Runs Q m → ((a : A) → Q a → R a) → Runs R m
Runs-weaken {Q = Q} {R = R} m h k = record {
  at = λ w i.
      Returns-map (λ a w'. Q a × AreIdle w') (λ a w'. R a × AreIdle w') (m w) (h.at w i)
        (λ a w' q. (k a q.0, q.1));
}

pub Runs-pure : {A : Type 0} {Q : A → Type 0} (a : A) → Q a → Runs Q (pure a)
unfolding pure
Runs-pure a q = record { at = λ w i. (q, i) }

pub Runs-lift :
    {A : Type 0} {Q : A → Type 0} (o : Option A) (a : A) → o ≡ some a → Q a → Runs Q (lift o)
unfolding lift
Runs-lift o a e q = rw e (record { at = λ w i. (q, i) })

pub Runs-branch :
    {A : Type 0} {Q : A → Type 0} (b : Bool) (m k : Act A)
    → Runs Q m
    → Runs Q k
    → Runs Q (branch b m k)
unfolding branch
Runs-branch true m k hm hk = record { at = λ w. hm.at w }
Runs-branch false m k hm hk = record { at = λ w. hk.at w }

-- The branch that is not taken may wait.
pub Runs-unless : {A : Type 0} {Q : A → Type 0} (m k : Act A) → Runs Q k → Runs Q (branch false m k)
unfolding branch
Runs-unless m k h = record { at = λ w. h.at w }

pub Runs-get_link : (db : Db) → Runs Any (get_link db)
unfolding get_link
Runs-get_link db = record { at = λ w i. (tt, i) }

pub Runs-call : (env : Env) (c : Call) → Runs Any (call env c)
unfolding call
Runs-call env c = record { at = λ w i. (tt, i) }

pub Runs-uninitialised : (env : Env) → Runs Any (uninitialised env)
unfolding uninitialised
Runs-uninitialised env = record { at = λ w i. (tt, i) }

pub Runs-call_file :
    (env : Env) (c : Call) (Q : File → Type 0)
    → ((calls : List Call) → Q (env.file calls))
    → Runs Q (call_file env c)
unfolding call_file
Runs-call_file env c Q h = record { at = λ w i. (h (c ∷ w.calls), i) }

pub Runs-received_now :
    (env : Env) (Q : Bytes → Type 0)
    → ((calls : List Call) → Q (env.received calls))
    → Runs Q (received_now env)
unfolding received_now
Runs-received_now env Q h = record { at = λ w i. (h w.calls, i) }

pub Runs-pure-Any : {A : Type 0} (a : A) → Runs Any (pure a)
Runs-pure-Any a = Runs-pure a tt

abbrev pub IsSome : {A : Type 0} → Option A → Type 0
IsSome none = ⊥
IsSome (some a) = Unit

pub IsSome-cases : {A : Type 0} (o : Option A) → IsSome o → (a : A) × (o ≡ some a)
IsSome-cases none h = absurd h
IsSome-cases (some a) h = (a, refl)

pub IsSome-bind :
    {A B : Type 0} (o : Option A) (f : A → Option B)
    → IsSome o
    → ((a : A) → IsSome (f a))
    → IsSome (o >>=ₒ f)
IsSome-bind none f h k = h
IsSome-bind (some a) f h k = k a

pub IsSome-if :
    {A : Type 0} (b : Bool) (o o' : Option A) → IsSome o → IsSome o' → IsSome (if b then o else o')
IsSome-if true o o' h k = h
IsSome-if false o o' h k = k

pub Runs-lift-Any : {A : Type 0} (o : Option A) → IsSome o → Runs Any (lift o)
Runs-lift-Any none h = absurd h
Runs-lift-Any (some a) h = Runs-lift (some a) a refl tt

pub Runs-then :
    {A B : Type 0} {R : B → Type 0} (m : Act A) (f : A → Act B)
    → Runs Any m
    → ((a : A) → Runs R (f a))
    → Runs R (m >>= f)
Runs-then m f hm hf = Runs-bind m f hm λ a _. hf a
