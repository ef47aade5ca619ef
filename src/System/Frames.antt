-- ===== src/System/Frames.antt =====
-- An action on one link leaves the other link as it was.
use tag_etl.Prelude.{ℕ, Bool, true, false, List, Option, none, some, ◌≡◌, refl, ◌∙◌, if◌then◌else◌}
use tag_etl.System.{
  Db, web, local, Call, Env, Link, World, Act, Returns, link_of, pure, lift, branch, call_file,
  get_link, put_link, lock, unlock, call, ◌>>=◌,
}

abbrev pub other : Db → Db
other web = local
other local = web

abbrev Same : {A : Type 0} → Db → World → Option (A × World) → Type 0
Same db w none = Unit
Same db w (some (a, w')) = link_of (other db) w' ≡ link_of (other db) w

-- Where the action returns, the link of the other object is what it was.
pub record Frames {A : Type 0} (db : Db) (m : Act A) : Type 0 where
  pub at : (w : World) → Same db w (m w)

Same-bind :
    {A B : Type 0} (db : Db) (w : World) (r : Option (A × World)) (f : A → Act B)
    → Same db w r
    → ((a : A) → Frames db (f a))
    → Same db w (elim r [ none ↦ none | some (a, w') ↦ f a w' ])
Same-bind db w none f h k = tt
Same-bind db w (some (a, w')) f h k = Same-trans (f a w') h ((k a).at w')
  where
    Same-trans :
        {A : Type 0} (r : Option (A × World))
        → link_of (other db) w' ≡ link_of (other db) w
        → Same db w' r
        → Same db w r
    Same-trans none h k = tt
    Same-trans (some x) h k = k ∙ h

module _ (db : Db) where
  pub Frames-pure : {A : Type 0} (a : A) → Frames db (pure a)
  unfolding pure
  Frames-pure a = record { at = λ w. refl }

  pub Frames-lift : {A : Type 0} (o : Option A) → Frames db (lift o)
  unfolding lift
  Frames-lift none = record { at = λ w. tt }
  Frames-lift (some a) = record { at = λ w. refl }

  pub Frames-unless : {A : Type 0} (m k : Act A) → Frames db k → Frames db (branch false m k)
  unfolding branch
  Frames-unless m k h = record { at = λ w. h.at w }

  pub Frames-branch :
      {A : Type 0} (b : Bool) (m k : Act A) → Frames db m → Frames db k → Frames db (branch b m k)
  unfolding branch
  Frames-branch true m k hm hk = record { at = λ w. hm.at w }
  Frames-branch false m k hm hk = record { at = λ w. hk.at w }

  pub Frames-get_link : Frames db (get_link db)
  unfolding get_link
  Frames-get_link = record { at = λ w. refl }

  pub Frames-bind :
      {A B : Type 0} (m : Act A) (f : A → Act B)
      → Frames db m
      → ((a : A) → Frames db (f a))
      → Frames db (m >>= f)
  unfolding ◌>>=◌
  Frames-bind m f hm hf = record { at = λ w. Same-bind db w (m w) f (hm.at w) hf }

pub Frames-call : (db : Db) (env : Env) (c : Call) → Frames db (call env c)
unfolding call
Frames-call web env c = record { at = λ w. refl }
Frames-call local env c = record { at = λ w. refl }

pub Frames-call_file : (db : Db) (env : Env) (c : Call) → Frames db (call_file env c)
unfolding call_file
Frames-call_file web env c = record { at = λ w. refl }
Frames-call_file local env c = record { at = λ w. refl }

pub Frames-put_link : (db : Db) (l : Link) → Frames db (put_link db l)
unfolding put_link
Frames-put_link web l = record { at = λ w. refl }
Frames-put_link local l = record { at = λ w. refl }

Same-lock_if :
    {A : Type 0} (db : Db) (b : Bool) (w : World) (r : Option (A × World))
    → Same db w r
    → Same db w (if b then none else r)
Same-lock_if db true w r h = tt
Same-lock_if db false w r h = h

pub Frames-lock : (db : Db) → Frames db (lock db)
unfolding lock
Frames-lock web = record { at = λ w. Same-lock_if web w.web_link.locked w _ refl }
Frames-lock local = record { at = λ w. Same-lock_if local w.local_link.locked w _ refl }

pub Frames-unlock : (db : Db) → Frames db (unlock db)
unfolding unlock
Frames-unlock web = record { at = λ w. refl }
Frames-unlock local = record { at = λ w. refl }

pub ruleset frames_rules = (
  Frames-pure, Frames-lift, Frames-branch, Frames-call, Frames-call_file, Frames-get_link,
  Frames-bind, Frames-put_link, Frames-lock, Frames-unlock, refl,
)

-- What an action does to its own link, and that it frames the other.
pub Returns-Frames :
    {A : Type 0} (db : Db) (m : Act A) (w : World) (P : A → World → Type 0)
    → Frames db m
    → Returns (m w) P
    → Returns (m w) (λ a w'. P a w' × (link_of (other db) w' ≡ link_of (other db) w))
Returns-Frames db m w P f h = both P (m w) (f.at w) h
  where
    both :
        {A : Type 0} (P : A → World → Type 0) (r : Option (A × World))
        → Same db w r
        → Returns r P
        → Returns r (λ a w'. P a w' × (link_of (other db) w' ≡ link_of (other db) w))
    both P none s h = h
    both P (some (a, w')) s h = (h, s)
