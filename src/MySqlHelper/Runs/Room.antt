-- ===== src/MySqlHelper/Runs/Room.antt =====
-- Connections need room in the count of users: what the steps before them leave of it.
use tag_etl.MySqlHelper.Connection.{HasRoom, sql_conn-IsIdle}
use tag_etl.MySqlHelper.Frames.{Frames-sql_conn}
use tag_etl.MySqlHelper.Runs.Statements.{IsIdle-of, pair_up}
use tag_etl.MySqlHelper.Runs.{Runs, Any, AreIdle, Returns-bind}
use tag_etl.MySqlHelper.{ConnParam, sql_conn}
use tag_etl.Prelude.{Bool, true, false}
use tag_etl.System.Frames.{Frames, other, Returns-Frames}
use tag_etl.System.{
  Db, web, local, Env, World, Act, Returns, Returns-map, link_of, branch, pure, ◌>>=◌,
}

-- From idle links with `P` the action returns, with a result of `Q` and idle links with `P'`.
pub record Starts {A : Type 0} (P P' : World → Type 0) (Q : A → Type 0) (m : Act A) : Type 0 where
  pub at : (w : World) → AreIdle w → P w → Returns (m w) (λ a w'. Q a × AreIdle w' × P' w')

abbrev pub Rooms : World → Type 0
Rooms w = HasRoom w.web_link × HasRoom w.local_link

abbrev pub RoomOf : Db → World → Type 0
RoomOf db w = HasRoom (link_of db w)

abbrev pub Anywhere : World → Type 0
Anywhere w = Unit

module _ {A : Type 0} {Q : A → Type 0} where
  pub Runs-Starts : (P : World → Type 0) (m : Act A) → Runs Q m → Starts P Anywhere Q m
  Runs-Starts P m h = record {
    at = λ w i p.
        Returns-map (λ a w'. Q a × AreIdle w') (λ a w'. Q a × AreIdle w' × Anywhere w') (m w)
          (h.at w i) (λ a w' r. (r.0, r.1, tt));
  }

  -- The other link keeps its room.
  pub Starts-framed :
      (P : World → Type 0) (db : Db) (m : Act A)
      → ((w : World) → P w → RoomOf (other db) w)
      → Frames db m
      → Starts P Anywhere Q m
      → Starts P (RoomOf (other db)) Q m
  Starts-framed P db m room f h = record {
    at = λ w i p.
        Returns-map _ (λ a w'. Q a × AreIdle w' × RoomOf (other db) w') (m w)
          (Returns-Frames db m w (λ a w'. Q a × AreIdle w' × Anywhere w') f (h.at w i p))
          (λ a w' r. (r.0.0, r.0.1, rw r.1 (room w p)));
  }

  -- Neither link is touched.
  pub Starts-both : (m : Act A) → Frames web m → Frames local m → Runs Q m → Starts Rooms Rooms Q m
  Starts-both m f g h = record {
    at = λ w i p.
        Returns-map _ (λ a w'. Q a × AreIdle w' × Rooms w') (m w)
          (Returns-Frames local m w _ g
            (Returns-Frames web m w (λ a w'. Q a × AreIdle w') f (h.at w i)))
          (λ a w' r. (r.0.0.0, r.0.0.1, (rw r.1 p.0, rw r.0.1 p.1)));
  }

  pub Starts-branch :
      (P P' : World → Type 0) (b : Bool) (m k : Act A)
      → Starts P P' Q m
      → Starts P P' Q k
      → Starts P P' Q (branch b m k)
  unfolding branch
  Starts-branch P P' true m k hm hk = record { at = hm.at }
  Starts-branch P P' false m k hm hk = record { at = hk.at }

pub Starts-bind :
    {A B : Type 0} {Q : A → Type 0} {R : B → Type 0} (P P' P'' : World → Type 0) (m : Act A)
    (f : A → Act B)
    → Starts P P' Q m
    → ((a : A) → Q a → Starts P' P'' R (f a))
    → Starts P P'' R (m >>= f)
unfolding ◌>>=◌
Starts-bind {Q = Q} {R = R} P P' P'' m f hm hf = record {
  at = λ w i p.
      Returns-bind (λ a w'. Q a × AreIdle w' × P' w') (λ b w'. R b × AreIdle w' × P'' w') (m w) f
        (hm.at w i p) (λ a w' h. (hf a h.0).at w' h.1 h.2);
}

-- if(false) m;
pub Starts-unless :
    (P : World → Type 0) (m : Act (Unit {0})) → Starts P P Any (branch false m (pure tt))
unfolding branch pure
Starts-unless P m = record { at = λ w i p. (tt, i, p) }

pub Starts-sql_conn :
    (env : Env) (db : Db) (p : ConnParam) → Starts (RoomOf db) Anywhere Any (sql_conn env db p)
Starts-sql_conn env db p = record {
  at = λ w i room.
      Returns-map (λ a w'. Any a × AreIdle w') (λ a w'. Any a × AreIdle w' × Anywhere w')
        (sql_conn env db p w)
        (pair_up env db (sql_conn env db p) w (Frames-sql_conn env db p) i
          (sql_conn-IsIdle env db p w (IsIdle-of env db w i) room))
        (λ a w' r. (r.0, r.1, tt));
}
