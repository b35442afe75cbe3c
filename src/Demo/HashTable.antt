-- ===== src/Demo/HashTable.antt =====
-- demo/inlupp2/hash_table-dynamic.c. A table knows its array of buckets, its size and capacity, its
-- load factor and three functions; a bucket is the first entry of a chain, and an entry is a key, a
-- value and the next entry.
--
-- A function pointer is a word; what the functions at a word do, and the test of the load factor,
-- which computes with `float`, are parameters. A chain is followed with fuel, one for each entry: a
-- chain that does not end within it is a fault.
pub mod Delete
pub mod Visit
pub mod Bounds
pub mod Chain
pub mod Bucket
pub mod Lookup
pub mod Insert
pub mod InsertNew
use garbagecollector.Base.{
  ℕ, zero, suc, ◌+◌, ◌-◌, ◌*◌, ◌%◌, ◌^◌, Bool, true, false, not, ◌&&◌, List, [], ◌∷◌, if◌then◌else◌,
  ◌==◌, ltb, none, some,
}
use garbagecollector.Demo.{
  Cmd, pure, ◌>>=◌, ◌>>◌, null, field64, field32, set_field64, set_field32, alloc,
}
use garbagecollector.Demo.LinkedList.{ioopm_linked_list_create, ioopm_linked_list_append}

-- The offsets of the fields: of a table and of an entry.
abbrev pub buckets : ℕ
buckets = 0

abbrev pub size : ℕ
size = 8

abbrev pub capacity : ℕ
capacity = 16

abbrev pub load_factor : ℕ
load_factor = 24

abbrev pub hash_function : ℕ
hash_function = 32

abbrev pub cmp : ℕ
cmp = 40

abbrev pub cmp_value : ℕ
cmp_value = 48

abbrev pub key : ℕ
key = 0

abbrev pub value : ℕ
value = 8

abbrev pub next : ℕ
next = 16

-- "*2lf3*", "17*" and "3*"
abbrev pub hash_table_fs : List ℕ
hash_table_fs = b'*' ∷ b'2' ∷ b'l' ∷ b'f' ∷ b'3' ∷ b'*' ∷ []

abbrev pub buckets_fs : List ℕ
buckets_fs = b'1' ∷ b'7' ∷ b'*' ∷ []

abbrev pub entry_fs : List ℕ
entry_fs = b'3' ∷ b'*' ∷ []

abbrev pub No_Buckets : ℕ
No_Buckets = 17

-- What the functions at a word do: compare two elements, and hash a key for a capacity; the test of the
-- load factor; and the words for the factor 0.75, `compare_int` and `compare_string`.
pub record Functions : Type 0 where
  pub compare : ℕ → ℕ → ℕ → Cmd Bool
  pub hash : ℕ → ℕ → ℕ → Cmd ℕ
  pub is_loaded : ℕ → ℕ → ℕ → Bool
  pub three_quarters : ℕ
  pub int_cmp : ℕ
  pub string_cmp : ℕ

-- `ht->buckets[i]`, its address and its value.
unfoldable pub bucket_address : ℕ → ℕ → Cmd ℕ
bucket_address ht i = do array ← field64 ht buckets; pure (array + 8 * i)

unfoldable pub bucket_at : ℕ → ℕ → Cmd ℕ
bucket_at ht i = do address ← bucket_address ht i; field64 address 0

unfoldable pub set_bucket : ℕ → ℕ → ℕ → Cmd (Unit {0})
set_bucket ht i entry = do address ← bucket_address ht i; set_field64 address 0 entry

-- The loop that makes the buckets from `i` on empty, `left` of them.
unfoldable pub empty_buckets : ℕ → ℕ → ℕ → Cmd (Unit {0})
empty_buckets ht zero i = pure tt
empty_buckets ht (suc left) i = do set_bucket ht i null; empty_buckets ht left (i + 1)

unfoldable pub ioopm_hash_table_create_dynamic : ℕ → ℕ → ℕ → ℕ → ℕ → Cmd ℕ
ioopm_hash_table_create_dynamic fun cmp_fun cmp_value_fun capacity_ load_factor_ = do
  result ← alloc hash_table_fs
  set_field64 result size 0
  set_field64 result hash_function fun
  set_field64 result cmp cmp_fun
  set_field64 result cmp_value cmp_value_fun
  set_field64 result capacity capacity_
  set_field32 result load_factor load_factor_
  array ← alloc buckets_fs
  set_field64 result buckets array
  n ← field64 result capacity
  empty_buckets result n 0
  pure result

unfoldable pub ioopm_hash_table_create : Functions → ℕ → ℕ → ℕ → Cmd ℕ
ioopm_hash_table_create f fun cmp_fun cmp_value_fun =
    ioopm_hash_table_create_dynamic fun cmp_fun cmp_value_fun No_Buckets f.three_quarters

-- More entries than any chain of the address space has.
abbrev pub chain_fuel : ℕ
chain_fuel = 2 ^ 64

-- `prev` and `current` are the addresses of pointers to entries.
unfoldable pub search_chain : Functions → ℕ → ℕ → ℕ → ℕ → ℕ → Cmd ℕ
search_chain f zero prev current wanted ht = λ s. none
search_chain f (suc fuel) prev current wanted ht = do
  entry ← field64 current 0
  let compared = (do
    c ← field64 ht cmp
    k ← field64 entry key
    same ← f.compare c k wanted
    let rest = search_chain f fuel current (entry + next) wanted ht
    if same then pure prev else rest)
  if entry == null then pure null else compared

unfoldable pub find_previous_entry_for_key : Functions → ℕ → ℕ → ℕ → Cmd ℕ
find_previous_entry_for_key f entry wanted ht =
    if entry == null then pure null else search_chain f chain_fuel null entry wanted ht

unfoldable pub entry_create : ℕ → ℕ → ℕ → Cmd ℕ
entry_create k v behind = do
  entry ← alloc entry_fs
  set_field64 entry key k
  set_field64 entry value v
  set_field64 entry next behind
  pure entry

abbrev pub primes : List ℕ
primes = 17 ∷ 31 ∷ 67 ∷ 127 ∷ 257 ∷ 509 ∷ 1021 ∷ 2053 ∷ 4099 ∷ 8191 ∷ 16381 ∷ []

-- The first number of the list above the capacity, or else the last one.
unfoldable pub first_above : ℕ → List ℕ → ℕ
first_above capacity_ [] = 16381
first_above capacity_ (p ∷ rest) = if ltb capacity_ p then p else first_above capacity_ rest

unfoldable pub find_next_capacity : ℕ → ℕ
find_next_capacity capacity_ = first_above capacity_ primes

-- The entries of a chain go to the new array, each to the front of its bucket.
unfoldable pub move_chain : Functions → ℕ → ℕ → ℕ → ℕ → ℕ → Cmd (Unit {0})
move_chain f zero ht new_buckets new_capacity entry = λ s. none
move_chain f (suc fuel) ht new_buckets new_capacity entry =
    let moved = (do
      h ← field64 ht hash_function
      k ← field64 entry key
      new_index ← f.hash h k new_capacity
      rest ← field64 entry next
      front ← field64 (new_buckets + 8 * new_index) 0
      set_field64 entry next front
      set_field64 (new_buckets + 8 * new_index) 0 entry
      move_chain f fuel ht new_buckets new_capacity rest) in
    if entry == null then pure tt else moved

unfoldable pub move_buckets : Functions → ℕ → ℕ → ℕ → ℕ → ℕ → Cmd (Unit {0})
move_buckets f zero i ht new_buckets new_capacity = pure tt
move_buckets f (suc left) i ht new_buckets new_capacity = do
  entry ← bucket_at ht i
  move_chain f chain_fuel ht new_buckets new_capacity entry
  move_buckets f left (i + 1) ht new_buckets new_capacity

unfoldable pub hash_table_grow : Functions → ℕ → Cmd (Unit {0})
hash_table_grow f ht = do
  old ← field64 ht capacity
  let new_capacity = find_next_capacity old
  new_buckets ← alloc entry_fs
  move_buckets f old 0 ht new_buckets new_capacity
  set_field64 ht capacity new_capacity
  set_field64 ht buckets new_buckets

-- `ht->hash_function(key, ht->capacity)` and `ht->cmp(entry->key, key)`
unfoldable pub bucket_of : Functions → ℕ → ℕ → Cmd ℕ
bucket_of f ht k = do h ← field64 ht hash_function; n ← field64 ht capacity; f.hash h k n

unfoldable pub has_this_key : Functions → ℕ → ℕ → ℕ → Cmd Bool
has_this_key f ht entry k = do c ← field64 ht cmp; k' ← field64 entry key; f.compare c k' k

unfoldable pub find_previous : Functions → ℕ → ℕ → ℕ → Cmd ℕ
find_previous f ht bucket k = do
  address ← bucket_address ht bucket
  find_previous_entry_for_key f address k ht

-- `(*prev)->next`
unfoldable pub behind_previous : ℕ → Cmd ℕ
behind_previous prev = do entry ← field64 prev 0; field64 entry next

unfoldable pub grow_if_loaded : Functions → ℕ → Cmd (Unit {0})
grow_if_loaded f ht = do
  n ← field64 ht size
  m ← field64 ht capacity
  factor ← field32 ht load_factor
  if f.is_loaded ((n + 1) % 2 ^ 64) m factor then hash_table_grow f ht else pure tt

unfoldable pub add_entry : ℕ → ℕ → ℕ → ℕ → ℕ → ℕ → Cmd (Unit {0})
add_entry ht bucket prev current k v = do
  new_entry ← entry_create k v current
  let behind = (do entry ← field64 prev 0; set_field64 entry next new_entry)
  if prev == null then set_bucket ht bucket new_entry else behind
  n ← field64 ht size
  set_field64 ht size ((n + 1) % 2 ^ 64)

unfoldable pub ioopm_hash_table_insert : Functions → ℕ → ℕ → ℕ → Cmd (Unit {0})
ioopm_hash_table_insert f ht k v = do
  grow_if_loaded f ht
  bucket ← bucket_of f ht k
  prev ← find_previous f ht bucket k
  current ← if prev == null then bucket_at ht bucket else behind_previous prev
  found ← if current == null then pure false else has_this_key f ht current k
  if found then set_field64 current value v else add_entry ht bucket prev current k v

unfoldable pub lookup_behind : Functions → ℕ → ℕ → ℕ → Cmd ℕ
lookup_behind f ht prev k = do
  current ← behind_previous prev
  found ← if current == null then pure false else has_this_key f ht current k
  if found then field64 current value else pure null

unfoldable pub lookup_in : Functions → ℕ → ℕ → ℕ → Cmd ℕ
lookup_in f ht bucket k = do
  prev ← find_previous f ht bucket k
  front ← bucket_at ht bucket
  at_front ← if prev == null then has_this_key f ht front k else pure false
  let behind = (if prev == null then pure null else lookup_behind f ht prev k)
  if at_front then field64 front value else behind

unfoldable pub ioopm_hash_table_lookup : Functions → ℕ → ℕ → Cmd ℕ
ioopm_hash_table_lookup f ht k = do
  bucket ← bucket_of f ht k
  front ← bucket_at ht bucket
  if front == null then pure null else lookup_in f ht bucket k
