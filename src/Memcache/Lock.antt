-- ===== src/Memcache/Lock.antt =====
-- The mutex of `CMemcache`, over any sequence of calls of the object.
use tag_etl.Memcache.{
  Call, Client, Memcache, Outcome, memcac_free, memcac_create, memcac_get, memcac_set,
  memcac_append, memcac_prepend, memcac_delete, server_address, mem_serv_addr_size,
}
use tag_etl.Prelude.{
  ℕ, ◌≡◌, Bool, true, false, List, [], ◌∷◌, ◌++◌, refl, ◌⊎◌, inl, inr, Option, none, some, ltb,
  length, not, ◌&&◌, ◌>>=◌, arith,
}
use tag_etl.Profile.Lookup.{is_empty}
use tag_etl.Text.{Bytes}

pub data Op : Type 0 where
  create : Bytes → ℕ → Op
  free : Op
  get : Bytes → Option (Option Bytes) → Op
  set append prepend : Bytes → Option Bytes → ℕ → Op
  delete : Bytes → Op

abbrev is_null : {A : Type 0} → Option A → Bool
is_null none = true
is_null (some v) = false

module _ (client : Client) where
  unfoldable pub run : Op → Memcache → Outcome ℕ
  unfolding memcac_free memcac_create memcac_get memcac_set memcac_append memcac_prepend
      memcac_delete
  run (create ip port) m = memcac_create client ip port m
  run free m = memcac_free client m
  run (get key out) m = memcac_get client key out m >>= λ r. some (r.0.0, r.1)
  run (set key value expiration) m = memcac_set client key value expiration m
  run (append key value expiration) m = memcac_append client key value expiration m
  run (prepend key value expiration) m = memcac_prepend client key value expiration m
  run (delete key) m = memcac_delete client key m

  unfoldable pub run_all : List Op → Memcache → Option Memcache
  run_all [] m = some m
  run_all (op ∷ ops) m = run op m >>= λ r. run_all ops r.1

-- An operation on a key that is given and a value that is given.
abbrev pub is_valid : Op → Bool
is_valid (create ip port) = false
is_valid free = false
is_valid (get key out) = not (is_empty key) && not (is_null out)
is_valid (set key value expiration) = not (is_empty key) && not (is_null value)
is_valid (append key value expiration) = not (is_empty key) && not (is_null value)
is_valid (prepend key value expiration) = not (is_empty key) && not (is_null value)
is_valid (delete key) = not (is_empty key)

abbrev pub is_prepend : Op → Bool
is_prepend (prepend key value expiration) = true
is_prepend op = false

-- The address of a server fits into its buffer.
abbrev pub fits : Op → Bool
fits (create ip port) = ltb (length (server_address ip port)) mem_serv_addr_size
fits op = true

-- What it hands to libmemcached without a test.
abbrev pub needs_handle : Op → Bool
needs_handle (delete key) = not (is_empty key)
needs_handle op = false

abbrev pub Returns : Outcome ℕ → (ℕ → Memcache → Type 0) → Type 0
Returns none P = ⊥
Returns (some (code, m)) P = P code m

-- Every method returns on an object whose mutex is free, where an address that is pushed fits its
-- buffer and `Memcac_Delete` of a key finds a handle. It leaves the mutex free, except
-- `Memcac_Prepend` of a key and a value on a null handle, which keeps it.
pub run-locked :
    (client : Client) (op : Op) (calls : List _) (handle : Bool)
    → fits op ≡ true
    → needs_handle op ≡ false ⊎ handle ≡ true
    → Returns
        (run client op (record { calls = calls; has_handle = handle; locked = false }))
        (λ code m'. m'.locked ≡ (is_prepend op && is_valid op && not handle))
unfolding run
run-locked client (create ip port) calls handle h n = ground arith
run-locked client free calls handle h n = ground arith
run-locked client (get key none) calls handle h n = ground arith
run-locked client (get key (some o)) calls handle h n = ground arith
run-locked client (set key none e) calls handle h n = ground arith
run-locked client (set key (some v) e) calls handle h n = ground arith
run-locked client (append key none e) calls handle h n = ground arith
run-locked client (append key (some v) e) calls handle h n = ground arith
run-locked client (prepend key none e) calls handle h n = ground arith
run-locked client (prepend key (some v) e) calls handle h n = ground arith
run-locked client (delete key) calls handle h (inl n) = ground arith
run-locked client (delete key) calls handle h (inr n) = ground arith

-- The mutex is held and there is no handle.
abbrev pub blocked : List Call → Memcache
blocked calls = record { calls = calls; has_handle = false; locked = true }

-- Waits for ever, or returns and leaves the object blocked.
abbrev Stays : Outcome ℕ → Type 0
Stays none = Unit
Stays (some (code, m)) = (m.has_handle ≡ false) × (m.locked ≡ true)

run-Stays : (client : Client) (op : Op) (calls : List Call) → Stays (run client op (blocked calls))
unfolding run
run-Stays client (create ip port) calls = ground arith
run-Stays client free calls = ground arith
run-Stays client (get key none) calls = ground arith
run-Stays client (get key (some o)) calls = ground arith
run-Stays client (set key none e) calls = ground arith
run-Stays client (set key (some v) e) calls = ground arith
run-Stays client (append key none e) calls = ground arith
run-Stays client (append key (some v) e) calls = ground arith
run-Stays client (prepend key none e) calls = ground arith
run-Stays client (prepend key (some v) e) calls = ground arith
run-Stays client (delete key) calls = ground arith

run-waits :
    (client : Client) (op : Op) (calls : List Call)
    → is_valid op ≡ true
    → run client op (blocked calls) ≡ none
unfolding run
run-waits client (create ip port) calls v = ground arith
run-waits client free calls v = ground arith
run-waits client (get k none) calls v = ground arith
run-waits client (get k (some o)) calls v = ground arith
run-waits client (set k none e) calls v = ground arith
run-waits client (set k (some x) e) calls v = ground arith
run-waits client (append k none e) calls v = ground arith
run-waits client (append k (some x) e) calls v = ground arith
run-waits client (prepend k none e) calls v = ground arith
run-waits client (prepend k (some x) e) calls v = ground arith
run-waits client (delete k) calls v = ground arith

bind-waits :
    (f : Memcache → Option Memcache) (r : Outcome ℕ)
    → Stays r
    → ((calls : List Call) → f (blocked calls) ≡ none)
    → (r >>= λ x. f x.1) ≡ none
bind-waits f none h k = refl
bind-waits f (some (code, m)) h k = rw (h.0, h.1) (k m.calls)

blocked-run_all :
    (client : Client) (ops : List Op) (op : Op) (rest : List Op) (calls : List Call)
    → is_valid op ≡ true
    → run_all client (ops ++ op ∷ rest) (blocked calls) ≡ none
unfolding run_all
blocked-run_all client [] op rest calls v = rw (run-waits client op calls v) refl
blocked-run_all client (first ∷ ops) op rest calls v =
    bind-waits (run_all client (ops ++ op ∷ rest)) (run client first (blocked calls))
      (run-Stays client first calls) (λ calls'. blocked-run_all client ops op rest calls' v)

-- `Memcac_Prepend` of a key and a value on a null handle blocks the object: whatever calls come
-- between, no sequence of calls gets beyond a later one of `Memcac_Get`, `Memcac_Set`,
-- `Memcac_Append`, `Memcac_Prepend` or `Memcac_Delete` with a key that is not empty and no null
-- argument.
pub prepend-run :
    (client : Client) (key : Bytes) (value : Bytes) (expiration : ℕ) (ops : List Op) (op : Op)
    (rest : List Op) (calls : List Call)
    → is_empty key ≡ false
    → is_valid op ≡ true
    → run_all client
        (prepend key (some value) expiration ∷ ops ++ op ∷ rest)
        (record { calls = calls; has_handle = false; locked = false })
      ≡ none
unfolding run run_all
prepend-run client key value e ops op rest calls h v =
    rw h (blocked-run_all client ops op rest calls v)

abbrev pub is_free : Op → Bool
is_free free = true
is_free op = false

-- Between two calls of an object in use.
abbrev pub IsOpen : Memcache → Type 0
IsOpen m = (m.locked ≡ false) × (m.has_handle ≡ true)

run-IsOpen :
    (client : Client) (op : Op) (calls : List _)
    → fits op ≡ true
    → is_free op ≡ false
    → Returns
        (run client op (record { calls = calls; has_handle = true; locked = false }))
        (λ code m'. IsOpen m')
unfolding run
run-IsOpen client (create ip port) calls h f = ground arith
run-IsOpen client free calls h f = ground arith
run-IsOpen client (get key none) calls h f = ground arith
run-IsOpen client (get key (some o)) calls h f = ground arith
run-IsOpen client (set key none e) calls h f = ground arith
run-IsOpen client (set key (some v) e) calls h f = ground arith
run-IsOpen client (append key none e) calls h f = ground arith
run-IsOpen client (append key (some v) e) calls h f = ground arith
run-IsOpen client (prepend key none e) calls h f = ground arith
run-IsOpen client (prepend key (some v) e) calls h f = ground arith
run-IsOpen client (delete key) calls h f = ground arith

abbrev pub AllServed : List Op → Type 0
AllServed [] = Unit
AllServed (op ∷ ops) = (fits op ≡ true) × (is_free op ≡ false) × AllServed ops

abbrev pub Ends : Option Memcache → Type 0
Ends none = ⊥
Ends (some m) = IsOpen m

Ends-bind :
    (f : Memcache → Option Memcache) (r : Outcome ℕ)
    → Returns r (λ code m'. IsOpen m')
    → ((m : Memcache) → IsOpen m → Ends (f m))
    → Ends (r >>= λ x. f x.1)
Ends-bind f none h k = h
Ends-bind f (some (code, m)) h k = k m h

-- An object with a handle and a free mutex serves every sequence of method calls without
-- `Memcac_Free` and with addresses that fit: no call waits for ever, whatever the server answers, and
-- at the end the mutex is free and the handle is there.
pub run_all-IsOpen :
    (client : Client) (ops : List Op) (m : Memcache)
    → AllServed ops
    → IsOpen m
    → Ends (run_all client ops m)
unfolding run_all
run_all-IsOpen client [] m s o = o
run_all-IsOpen client (op ∷ ops) m (h, f, s) (free_now, open_now) =
    Ends-bind (run_all client ops) (run client op m)
      (rw (free_now, open_now) (run-IsOpen client op m.calls h f))
      (λ m' o. run_all-IsOpen client ops m' s o)
