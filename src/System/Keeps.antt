-- ===== src/System/Keeps.antt =====
-- What an action does to the list of calls, one rule for each way to build an action. A run that ends
-- in undefined behaviour satisfies all of this.
use tag_etl.Prelude.{
  ℕ, Bool, true, false, List, [], ◌∷◌, Option, none, some, ◌≡◌, refl, ◌==◌, ◌&&◌, if◌then◌else◌,
}
use tag_etl.System.{
  Db, web, local, Call, mysql_query, Env, Link, World, Act, pure, lift, branch, get_link, put_link,
  lock, unlock, call, call_rows, call_file, received_now, uninitialised, ◌>>=◌,
}

abbrev pub Upon : {A : Type 0} → (A → List Call → Type 0) → Option (A × World) → Type 0
Upon Q none = Unit
Upon Q (some (a, w)) = Q a w.calls

-- From calls with `P` the action comes to calls with `P`.
pub record Keeps {A : Type 0} (P : List Call → Type 0) (m : Act A) : Type 0 where
  pub at : (w : World) → P w.calls → Upon (λ _. P) (m w)

-- From calls with `P` the action comes to a result and calls with `Q`.
pub record Leads {A : Type 0} (P : List Call → Type 0) (Q : A → List Call → Type 0) (m : Act A)
    : Type 0 where
  pub at : (w : World) → P w.calls → Upon Q (m w)

pub Keeps-lock_if :
    {A : Type 0} (P : List Call → Type 0) (b : Bool) (r : Option (A × World))
    → Upon (λ _. P) r
    → Upon (λ _. P) (if b then none else r)
Keeps-lock_if P true r h = tt
Keeps-lock_if P false r h = h

Upon-bind :
    {A B : Type 0} (Q : A → List Call → Type 0) (R : B → List Call → Type 0) (f : A → Act B)
    (r : Option (A × World))
    → Upon Q r
    → ((a : A) → Leads (Q a) R (f a))
    → Upon R (elim r [ none ↦ none | some (a, w) ↦ f a w ])
Upon-bind Q R f none h k = tt
Upon-bind Q R f (some (a, w)) h k = (k a).at w h

module _ {P : List Call → Type 0} where
  pub Keeps-pure : {A : Type 0} (a : A) → Keeps P (pure a)
  unfolding pure
  Keeps-pure a = record { at = λ w h. h }

  pub Keeps-lift : {A : Type 0} (o : Option A) → Keeps P (lift o)
  unfolding lift
  Keeps-lift none = record { at = λ w h. tt }
  Keeps-lift (some a) = record { at = λ w h. h }

  pub Keeps-branch :
      {A : Type 0} (b : Bool) (m k : Act A) → Keeps P m → Keeps P k → Keeps P (branch b m k)
  unfolding branch
  Keeps-branch true m k hm hk = record { at = λ w. hm.at w }
  Keeps-branch false m k hm hk = record { at = λ w. hk.at w }

  pub Keeps-get_link : (db : Db) → Keeps P (get_link db)
  unfolding get_link
  Keeps-get_link db = record { at = λ w h. h }

  pub Keeps-put_link : (db : Db) (l : Link) → Keeps P (put_link db l)
  unfolding put_link
  Keeps-put_link web l = record { at = λ w h. h }
  Keeps-put_link local l = record { at = λ w h. h }

  pub Keeps-lock : (db : Db) → Keeps P (lock db)
  unfolding lock
  Keeps-lock web = record { at = λ w h. Keeps-lock_if P w.web_link.locked _ h }
  Keeps-lock local = record { at = λ w h. Keeps-lock_if P w.local_link.locked _ h }

  pub Keeps-unlock : (db : Db) → Keeps P (unlock db)
  unfolding unlock
  Keeps-unlock web = record { at = λ w h. h }
  Keeps-unlock local = record { at = λ w h. h }

  pub Keeps-uninitialised : (env : Env) → Keeps P (uninitialised env)
  unfolding uninitialised
  Keeps-uninitialised env = record { at = λ w h. h }

  pub Keeps-received_now : (env : Env) → Keeps P (received_now env)
  unfolding received_now
  Keeps-received_now env = record { at = λ w h. h }

-- The rules for calls: `P` is kept by every call but statements to the web library that begin with a
-- `d`, the deletions.
abbrev is_web : Db → Bool
is_web web = true
is_web local = false

abbrev pub is_delete : Call → Bool
is_delete (mysql_query db (c ∷ cs)) = c == b'd' && is_web db
is_delete _ = false

abbrev pub Stable : (List Call → Type 0) → Type 0
Stable P = (c : Call) → is_delete c ≡ false → (calls : List Call) → P calls → P (c ∷ calls)

module _ {P : List Call → Type 0} where
  pub Keeps-call : (env : Env) (c : Call) → Stable P → is_delete c ≡ false → Keeps P (call env c)
  unfolding call
  Keeps-call env c stable h = record { at = λ w. stable c h w.calls }

  pub Keeps-call_rows :
      (env : Env) (c : Call) → Stable P → is_delete c ≡ false → Keeps P (call_rows env c)
  unfolding call_rows
  Keeps-call_rows env c stable h = record { at = λ w. stable c h w.calls }

  pub Keeps-call_file :
      (env : Env) (c : Call) → Stable P → is_delete c ≡ false → Keeps P (call_file env c)
  unfolding call_file
  Keeps-call_file env c stable h = record { at = λ w. stable c h w.calls }

module _ {P : List Call → Type 0} {A B : Type 0} {Q : A → List Call → Type 0}
    {R : B → List Call → Type 0} where
  pub Leads-bind :
      (m : Act A) (f : A → Act B)
      → Leads P Q m
      → ((a : A) → Leads (Q a) R (f a))
      → Leads P R (m >>= f)
  unfolding ◌>>=◌
  Leads-bind m f hm hf = record { at = λ w h. Upon-bind Q R f (m w) (hm.at w h) hf }

pub Upon-weaken :
    {A : Type 0} (Q R : A → List Call → Type 0) (r : Option (A × World))
    → Upon Q r
    → ((a : A) (calls : List Call) → Q a calls → R a calls)
    → Upon R r
Upon-weaken Q R none h k = tt
Upon-weaken Q R (some (a, w)) h k = k a w.calls h

pub Leads-weaken :
    {A : Type 0} {P : List Call → Type 0} {Q R : A → List Call → Type 0} {m : Act A}
    → Leads P Q m
    → ((a : A) (calls : List Call) → Q a calls → R a calls)
    → Leads P R m
Leads-weaken {Q = Q} {R = R} {m = m} h k = record { at = λ w p. Upon-weaken Q R (m w) (h.at w p) k }

pub Keeps-Leads : {A : Type 0} {P : List Call → Type 0} {m : Act A} → Keeps P m → Leads P (λ _. P) m
Keeps-Leads h = record { at = h.at }

pub Leads-Keeps : {A : Type 0} {P : List Call → Type 0} {m : Act A} → Leads P (λ _. P) m → Keeps P m
Leads-Keeps h = record { at = h.at }

pub Keeps-bind :
    {P : List Call → Type 0} {A B : Type 0} (m : Act A) (f : A → Act B)
    → Keeps P m
    → ((a : A) → Keeps P (f a))
    → Keeps P (m >>= f)
Keeps-bind m f hm hf = Leads-Keeps (Leads-bind m f (Keeps-Leads hm) (λ a. Keeps-Leads (hf a)))

pub ruleset keeps_rules = (
  Keeps-pure, Keeps-lift, Keeps-branch, Keeps-get_link, Keeps-put_link, Keeps-lock, Keeps-unlock,
  Keeps-uninitialised, Keeps-received_now, Keeps-call, Keeps-call_rows, Keeps-call_file, Keeps-bind,
  refl,
)
