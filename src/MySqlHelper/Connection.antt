-- ===== src/MySqlHelper/Connection.antt =====
-- The connection of `CMySqlHelper`: its lock and its count of users.
use mathlib.Core.Path.{subst}
use tag_etl.Prelude.{
  ℕ, zero, suc, ◌+◌, ◌-◌, ◌^◌, ◌<◌, ◌++◌, refl, ◌≡◌, Bool, true, false, ◌==◌, ltb, if◌then◌else◌,
  arith,
}
use tag_etl.MySqlHelper.{ConnParam, sql_conn, sql_close, conn_string, second_conn}
use tag_etl.MySqlHelper.Opened.{Opened, state, first_conn-Opened}
use tag_etl.System.{
  Db, web, local, Env, Link, World, link_of, set_link, Returns, Returns-map, ◌>>=◌,
}
use tag_etl.Text.Converter.{print_unsigned}
use tag_etl.Text.{Bytes, bytes_eq_iff}

-- Between two calls of the object: the lock is free, and the pointer is set exactly while someone
-- uses the connection.
pub record IsIdle (l : Link) : Type 0 where
  pub free : l.locked ≡ false
  pub counted : l.connected ≡ ltb 0 l.num_ref

-- One user more is an int.
abbrev pub HasRoom : Link → Type 0
HasRoom l = l.num_ref + 1 < 2 ^ 31

-- What a connection is known by: host, port in digits, data base, user and password in one text.
abbrev pub key_of : ConnParam → Bytes
key_of p = p.host ++ (print_unsigned p.port ++ (p.db_name ++ (p.user_name ++ p.passwd)))

conn_string-key_of : (p : ConnParam) → conn_string p ≡ key_of p
unfolding conn_string
conn_string-key_of p = refl

-- What `SqlConn` leaves of a link, by its code.
pub record Conn (p : ConnParam) (old : Link) (code : ℕ) (new : Link) : Type 0 where
  pub free : new.locked ≡ false
  pub users : new.num_ref ≡ (if code == 0 then old.num_ref + 1 else old.num_ref)
  pub open_now : new.connected ≡ (if code == 0 then true else old.connected)
  pub key : (if code == 0 then new.sql_conn else key_of p) ≡ key_of p

module _ (env : Env) (p : ConnParam) (key : Bytes) (cl : Bool) (w : World) where
  second_conn-Conn :
      (db : Db) (n : ℕ)
      → n + 1 < 2 ^ 31
      → Returns
          (second_conn env db p
            (state true n true key cl)
            (set_link db (state true n true key cl) w))
          (λ c w'. Conn p (state true n false key cl) c (link_of db w'))
  unfolding second_conn ◌>>=◌
  second_conn-Conn web n h = ground (arith, bytes_eq_iff key (conn_string p), conn_string-key_of p)
  second_conn-Conn local n h =
      ground (arith, bytes_eq_iff key (conn_string p), conn_string-key_of p)

  Opened-Conn : (code : ℕ) {l : Link} → Opened p code l → Conn p (state false 0 false key cl) code l
  Opened-Conn code {l = l} o = record {
    free = o.free;
    users = ground (arith, o.users);
    open_now = ground (arith, o.open_now);
    key = subst (λ k. (if code == 0 then l.sql_conn else k) ≡ k) (conn_string-key_of p) o.key;
  }

  sql_conn_new :
      (db : Db)
      → Returns
          (sql_conn env db p (set_link db (state false 0 false key cl) w))
          (λ c w'. Conn p (state false 0 false key cl) c (link_of db w'))
  unfolding sql_conn ◌>>=◌
  sql_conn_new web =
      Returns-map (λ c w'. Opened p c (link_of web w')) _ _ (first_conn-Opened env p key cl web w)
        (λ c w' o. Opened-Conn c o)
  sql_conn_new local =
      Returns-map (λ c w'. Opened p c (link_of local w')) _ _
        (first_conn-Opened env p key cl local w) (λ c w' o. Opened-Conn c o)

  sql_conn_again :
      (db : Db) (n : ℕ)
      → n + 1 < 2 ^ 31
      → Returns
          (sql_conn env db p (set_link db (state true n false key cl) w))
          (λ c w'. Conn p (state true n false key cl) c (link_of db w'))
  unfolding sql_conn ◌>>=◌
  sql_conn_again web n h = second_conn-Conn web n h
  sql_conn_again local n h = second_conn-Conn local n h

-- An idle link is closed with no user, or open with some.
module _ (P : World → Type 0) (db : Db) where
  module _
      (closed : (key : Bytes) (cl : Bool) (w : World)
        → P (set_link db (state false 0 false key cl) w))
      (opened : (n : ℕ) (key : Bytes) (cl : Bool) (w : World)
        → P (set_link db (state true (suc n) false key cl) w)) where
    from_fields :
        (c : Bool) (n : ℕ) (l : Bool) (key : Bytes) (cl : Bool) (w : World)
        → IsIdle (state c n l key cl)
        → P (set_link db (state c n l key cl) w)
    from_fields false zero false key cl w idle = closed key cl w
    from_fields true (suc n) false key cl w idle = opened n key cl w
    from_fields true zero l key cl w idle = absurd (ground (arith, idle.counted))
    from_fields false (suc n) l key cl w idle = absurd (ground (arith, idle.counted))
    from_fields c n true key cl w idle = absurd (ground (arith, idle.free))

pub IsIdle-cases :
    (P : World → Type 0) (db : Db)
    → ((key : Bytes) (cl : Bool) (w : World) → P (set_link db (state false 0 false key cl) w))
    → ((n : ℕ) (key : Bytes) (cl : Bool) (w : World)
        → P (set_link db (state true (suc n) false key cl) w))
    → (w : World) → IsIdle (link_of db w)
    → P w
IsIdle-cases P web closed opened w idle =
    let l = w.web_link in
    from_fields P web closed opened l.connected l.num_ref l.locked l.sql_conn l.conn_locked w idle
IsIdle-cases P local closed opened w idle =
    let l = w.local_link in
    from_fields P local closed opened l.connected l.num_ref l.locked l.sql_conn l.conn_locked w idle

pub sql_conn-Conn :
    (env : Env) (db : Db) (p : ConnParam) (w : World)
    → IsIdle (link_of db w)
    → HasRoom (link_of db w)
    → Returns (sql_conn env db p w) (λ c w'. Conn p (link_of db w) c (link_of db w'))
sql_conn-Conn env web p =
    IsIdle-cases
      (λ w.
        HasRoom (link_of web w)
        → Returns (sql_conn env web p w) (λ c w'. Conn p (link_of web w) c (link_of web w')))
      web (λ key cl w h. sql_conn_new env p key cl w web)
      (λ n key cl w h. sql_conn_again env p key cl w web (suc n) h)
sql_conn-Conn env local p =
    IsIdle-cases
      (λ w.
        HasRoom (link_of local w)
        → Returns (sql_conn env local p w) (λ c w'. Conn p (link_of local w) c (link_of local w')))
      local (λ key cl w h. sql_conn_new env p key cl w local)
      (λ n key cl w h. sql_conn_again env p key cl w local (suc n) h)

-- The lock is free and the count is right after `SqlConn` as before it.
pub sql_conn-IsIdle :
    (env : Env) (db : Db) (p : ConnParam) (w : World)
    → IsIdle (link_of db w)
    → HasRoom (link_of db w)
    → Returns (sql_conn env db p w) (λ c w'. IsIdle (link_of db w'))
sql_conn-IsIdle env db p w idle room =
    Returns-map (λ c w'. Conn p (link_of db w) c (link_of db w')) _ _
      (sql_conn-Conn env db p w idle room)
      (λ c w' r. Conn-IsIdle p (link_of db w) c (link_of db w') idle r)
  where
    Conn-IsIdle :
        (q : ConnParam) (old : Link) (c : ℕ) (new : Link)
        → IsIdle old
        → Conn q old c new
        → IsIdle new
    Conn-IsIdle q old c new i r = ground (arith, i.counted, r.users, r.open_now)

-- What `SqlClose` leaves: one user less, and no connection once there is none.
pub record Closed (old new : Link) : Type 0 where
  pub free : new.locked ≡ false
  pub users : new.num_ref ≡ old.num_ref - 1
  pub open_now : new.connected ≡ ltb 0 (old.num_ref - 1)

pub sql_close-Closed :
    (env : Env) (db : Db) (w : World)
    → IsIdle (link_of db w)
    → Returns (sql_close env db w) (λ _ w'. Closed (link_of db w) (link_of db w'))
unfolding sql_close ◌>>=◌
sql_close-Closed env web =
    IsIdle-cases
      (λ w. Returns (sql_close env web w) (λ _ w'. Closed (link_of web w) (link_of web w'))) web
      (λ key cl w. ground arith) (λ n key cl w. ground arith)
sql_close-Closed env local =
    IsIdle-cases
      (λ w. Returns (sql_close env local w) (λ _ w'. Closed (link_of local w) (link_of local w')))
      local (λ key cl w. ground arith) (λ n key cl w. ground arith)
