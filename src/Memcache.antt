-- ===== src/Memcache.antt =====
-- `CMemcache` of utils/Memcache.cpp: a handle of libmemcached under a mutex. What libmemcached is and
-- answers is the parameter `Client`: an answer is a function of the calls so far, the call itself in
-- front. A null pointer is `none`. A run that ends in `none` waits for a lock that never comes (the
-- mutex is not recursive), writes behind its buffer, or hands libmemcached a null handle.
pub mod Lock
use tag_etl.Prelude.{
  ℕ, ◌+◌, Bool, true, false, List, [], ◌∷◌, ◌++◌, Option, none, some, ◌==◌, ltb, length,
  if◌then◌else◌, not, ◌||◌, ◌>>=◌,
}
use tag_etl.Profile.Load.{c_string}
use tag_etl.Profile.Lookup.{is_empty}
use tag_etl.Text.Converter.{print_unsigned}
use tag_etl.Text.Number.{ℤ, pos, negsuc, to_int}
use tag_etl.Text.{Bytes}

pub data Call : Type 0 where
  memcached_create memcached_behavior_set memcached_flush : Call
  memcached_server_push memcached_get memcached_delete : Bytes → Call
  memcached_set memcached_append memcached_prepend memcached_add : Bytes → Bytes → ℕ → Call

pub record Client : Type 0 where
  pub success : ℕ
  pub server_error : ℕ
  pub not_stored : ℕ
  pub answer : List Call → ℕ
  pub value : List Call → Option Bytes

-- m_hMc (null or not) and m_hmc_mutex
pub record Memcache : Type 0 where
  pub calls : List Call
  pub has_handle : Bool
  pub locked : Bool

abbrev pub memcached_invalid_arguments : ℕ
memcached_invalid_arguments = 38

abbrev pub mem_serv_addr_size : ℕ
mem_serv_addr_size = 32

abbrev pub Outcome : Type 0 → Type 0
Outcome A = Option (A × Memcache)

-- pthread_mutex_lock, and what the code does behind it
unfoldable pub with_lock : {A : Type 0} → Memcache → (Memcache → Outcome A) → Outcome A
with_lock m k = if m.locked then none else k (record m { locked = true })

unfoldable pub unlocked : {A : Type 0} → A → Memcache → Outcome A
unlocked res m = some (res, record m { locked = false })

abbrev pub called : Call → Memcache → Memcache
called c m = record m { calls = c ∷ m.calls }

-- %d
unfoldable pub print_int : ℤ → Bytes
unfolding print_unsigned
print_int (pos n) = print_unsigned n
print_int (negsuc n) = b'-' ∷ print_unsigned (n + 1)

unfoldable pub server_address : Bytes → ℕ → Bytes
unfolding c_string print_int to_int
server_address ip port = c_string ip ++ (b':' ∷ print_int (to_int port))

module _ (client : Client) where
  unfoldable pub memcac_free : Memcache → Outcome ℕ
  unfolding with_lock unlocked
  memcac_free m =
      if not m.has_handle
      then some (client.server_error, m)
      else with_lock m λ m'.
        let m'' = called memcached_flush m' in
        unlocked (client.answer m''.calls) (record m'' { has_handle = false })

  -- The new handle takes the place of the old one, which is flushed.
  install : Memcache → Outcome ℕ
  unfolding memcac_free with_lock unlocked
  install m = (if m.has_handle then memcac_free m else some (client.success, m)) >>= λ r.
      with_lock r.1 λ m'. unlocked client.success (record m' { has_handle = true })

  push_server : Bytes → Memcache → Outcome ℕ
  unfolding install
  push_server address m =
      let pushed = called (memcached_server_push address) (called memcached_create m) in
      let set = called memcached_behavior_set pushed in
      if not (client.answer pushed.calls == client.success)
      then some (client.answer pushed.calls, pushed)
      else if not (client.answer set.calls == client.success)
      then some (client.answer set.calls, set)
      else install set

  unfoldable pub memcac_create : Bytes → ℕ → Memcache → Outcome ℕ
  unfolding push_server server_address
  memcac_create ip port m =
      if is_empty ip || port == 0
      then some (memcached_invalid_arguments, m)
      else if ltb (length (server_address ip port)) mem_serv_addr_size
      then push_server (server_address ip port) m
      else none

  -- if(NULL == m_hMc) { unlock; return MEMCACHED_SERVER_ERROR; }
  with_handle : {A : Type 0} → A → Memcache → (Memcache → Outcome A) → Outcome A
  unfolding with_lock unlocked
  with_handle null m k = with_lock m λ m'. if m'.has_handle then k m' else unlocked null m'

  -- The code and *ppValue; `out` is the argument ppValue with what it points to.
  unfoldable pub memcac_get : Bytes → Option (Option Bytes) → Memcache → Outcome (ℕ × Option Bytes)
  unfolding with_handle
  memcac_get key none m = some ((memcached_invalid_arguments, none), m)
  memcac_get key (some old) m =
      if is_empty key
      then some ((memcached_invalid_arguments, old), m)
      else with_handle (client.server_error, old) m
          λ m'.
            let m'' = called (memcached_get key) m' in
            unlocked (client.answer m''.calls, client.value m''.calls) m''

  unfoldable pub memcac_set : Bytes → Option Bytes → ℕ → Memcache → Outcome ℕ
  unfolding with_handle
  memcac_set key none expiration m = some (memcached_invalid_arguments, m)
  memcac_set key (some value) expiration m =
      if is_empty key
      then some (memcached_invalid_arguments, m)
      else with_handle client.server_error m λ m'.
        let m'' = called (memcached_set key value expiration) m' in
        unlocked (client.answer m''.calls) m''

  -- MEMCACHED_NOTSTORED: the key is new, and is added.
  or_add : Bytes → Bytes → ℕ → Memcache → Outcome ℕ
  unfolding unlocked
  or_add key value expiration m =
      let m' = called (memcached_add key value expiration) m in
      if client.answer m.calls == client.not_stored
      then unlocked (client.answer m'.calls) m'
      else unlocked (client.answer m.calls) m

  unfoldable pub memcac_append : Bytes → Option Bytes → ℕ → Memcache → Outcome ℕ
  unfolding with_handle or_add
  memcac_append key none expiration m = some (memcached_invalid_arguments, m)
  memcac_append key (some value) expiration m =
      if is_empty key
      then some (memcached_invalid_arguments, m)
      else with_handle client.server_error m
          λ m'. or_add key value expiration (called (memcached_append key value expiration) m')

  -- A null handle is answered without an unlock.
  unfoldable pub memcac_prepend : Bytes → Option Bytes → ℕ → Memcache → Outcome ℕ
  unfolding with_lock or_add
  memcac_prepend key none expiration m = some (memcached_invalid_arguments, m)
  memcac_prepend key (some value) expiration m =
      if is_empty key
      then some (memcached_invalid_arguments, m)
      else with_lock m λ m'.
        if m'.has_handle
        then or_add key value expiration (called (memcached_prepend key value expiration) m')
        else some (client.server_error, m')

  -- The handle is not looked at: libmemcached gets the null pointer, of which it promises nothing.
  unfoldable pub memcac_delete : Bytes → Memcache → Outcome ℕ
  unfolding with_lock unlocked
  memcac_delete key m =
      if is_empty key
      then some (memcached_invalid_arguments, m)
      else with_lock m λ m'.
        let m'' = called (memcached_delete key) m' in
        if m'.has_handle then unlocked (client.answer m''.calls) m'' else none
