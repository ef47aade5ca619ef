-- ===== src/System.antt =====
-- What the program's classes share when they run: the calls that they make to code outside the
-- repository, in order, and the members of the two CLib objects. An answer from outside is a
-- function of all calls so far, the call itself in front: nothing is assumed of it.
pub mod Keeps
pub mod Frames
pub mod Success
use tag_etl.Prelude.{
  ℕ, Bool, true, false, List, [], ◌∷◌, Option, none, some, ◌==◌, ◌≡◌, refl, ap, if◌then◌else◌,
}
use tag_etl.Text.{Bytes}

-- The two objects of class CLib: m_webLib and m_localLib.
pub data Db : Type 0 where
  web local : Db

pub data Level : Type 0 where
  info error : Level

pub data Call : Type 0 where
  -- utils/Profile.cpp, LoadProfile: fopen, ftell and fread of a path
  read_file : Bytes → Call
  -- utils/MySqlHelper.cpp
  new_mysql delete_mysql mysql_init mysql_close mysql_store_result mysql_free_result : Db → Call
  mysql_real_connect : Db → Bytes → ℕ → Bytes → Bytes → Call
  mysql_select_db mysql_query : Db → Bytes → Call
  -- search/searchFileGenerator.cpp: the stream is opened, a line is written
  open_search write_search : Bytes → Call
  -- utils/PacSocket.cpp; a socket is known by its descriptor
  new_socket : Call
  connect : ℕ → Bytes → ℕ → Call
  send : ℕ → Bytes → Call
  recv : ℕ → ℕ → Call
  close_socket : ℕ → Call
  -- the logger: Logger::init, and one line of a level with an error code
  init_logger : Bytes → Call
  logged : Level → ℕ → Call

-- A column is null or a C string.
abbrev pub Row : Type 0
Row = List (Option Bytes)

-- What stands under a path: nothing that opens, a file that cannot be read, or its bytes.
pub data File : Type 0 where
  absent : File
  unreadable : File
  content : Bytes → File

-- The answers: an int, the rows of a result (none for a null result), a file, received bytes, and
-- what a member that the code leaves uninitialised holds.
pub record Env : Type 0 where
  pub code : List Call → ℕ
  pub rows : List Call → Option (List Row)
  pub file : List Call → File
  pub received : List Call → Bytes
  pub junk : List Call → ℕ

-- CMySqlHelper's m_pSqlConn (null or not), m_numRef, m_sqlConn_mutex, m_strSqlConn, and CLib's own
-- m_conn_mutex.
pub record Link : Type 0 where
  pub connected : Bool
  pub num_ref : ℕ
  pub locked : Bool
  pub sql_conn : Bytes
  pub conn_locked : Bool

pub record World : Type 0 where
  pub calls : List Call
  pub web_link : Link
  pub local_link : Link

-- `none` is undefined behaviour, or a lock that never comes.
abbrev pub Act : Type 0 → Type 0
Act A = World → Option (A × World)

unfoldable pub pure : {A : Type 0} → A → Act A
pure a w = some (a, w)

unfoldable pub lift : {A : Type 0} → Option A → Act A
lift o w = elim o [ none ↦ none | some a ↦ some (a, w) ]

-- if(b) m else k
unfoldable pub branch : {A : Type 0} → Bool → Act A → Act A → Act A
branch b m k w = if b then m w else k w

abbrev pub link_of : Db → World → Link
link_of web w = w.web_link
link_of local w = w.local_link

abbrev pub set_link : Db → Link → World → World
set_link web l w = record w { web_link = l }
set_link local l w = record w { local_link = l }

abbrev pub record_call : Call → World → World
record_call c w = record w { calls = c ∷ w.calls }

module _ (env : Env) where
  unfoldable pub call : Call → Act ℕ
  call c w = let calls = c ∷ w.calls in some (env.code calls, record w { calls = calls })

  unfoldable pub call_rows : Call → Act (Option (List Row))
  call_rows c w = let calls = c ∷ w.calls in some (env.rows calls, record w { calls = calls })

  unfoldable pub call_file : Call → Act File
  call_file c w = let calls = c ∷ w.calls in some (env.file calls, record w { calls = calls })

  -- what the last call left in its buffer
  unfoldable pub received_now : Act Bytes
  received_now w = some (env.received w.calls, w)

  unfoldable pub uninitialised : Act ℕ
  uninitialised w = some (env.junk w.calls, w)

unfoldable pub get_link : Db → Act Link
get_link db w = some (link_of db w, w)

unfoldable pub put_link : Db → Link → Act (Unit {0})
put_link db l w = some (tt, set_link db l w)

-- pthread_mutex_lock of a mutex that is held never returns: it is not recursive.
unfoldable pub lock : Db → Act (Unit {0})
lock db w =
    let l = link_of db w in
    if l.locked then none else some (tt, set_link db (record l { locked = true }) w)

unfoldable pub unlock : Db → Act (Unit {0})
unlock db w = some (tt, set_link db (record (link_of db w) { locked = false }) w)

infixl 5 ◌>>=◌ ◌>>◌
-- Opening this opens the actions above.
unfoldable pub ◌>>=◌ : {A B : Type 0} → Act A → (A → Act B) → Act B
unfolding pure lift branch get_link put_link lock unlock call call_rows call_file received_now
    uninitialised
◌>>=◌ m f w = elim (m w) [ none ↦ none | some (a, w') ↦ f a w' ]

abbrev pub ◌>>◌ : {A B : Type 0} → Act A → Act B → Act B
m >> k = m >>= λ _. k

pub bind-some :
    {A B : Type 0} (m : Act A) (f : A → Act B) (w w' : World) (a : A)
    → m w ≡ some (a, w')
    → (m >>= f) w ≡ f a w'
unfolding ◌>>=◌
bind-some m f w w' a h = ap (λ r. elim r [ none ↦ none | some (x, w'') ↦ f x w'' ]) h

-- if((uRet = m) != 0) return uRet; k
abbrev pub unless_error : Act ℕ → Act ℕ → Act ℕ
unless_error m k = m >>= λ code. branch (code == 0) k (pure code)

-- The action returns, and what it returns and leaves behind satisfies `P`.
abbrev pub Returns : {A : Type 0} → Option (A × World) → (A → World → Type 0) → Type 0
Returns none P = ⊥
Returns (some (a, w)) P = P a w

pub Returns-map :
    {A : Type 0} (Q P : A → World → Type 0) (r : Option (A × World))
    → Returns r Q
    → ((a : A) (w : World) → Q a w → P a w)
    → Returns r P
Returns-map Q P none q k = q
Returns-map Q P (some (a, w)) q k = k a w q
