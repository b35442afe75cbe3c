-- ===== src/Demo/HashTable/Visit.antt =====
-- The functions of demo/inlupp2/hash_table-dynamic.c that go through all entries.
use garbagecollector.Base.{ℕ, zero, suc, ◌+◌, Bool, true, false, not, if◌then◌else◌, ◌==◌, none}
use garbagecollector.Demo.{Cmd, pure, ◌>>=◌, ◌>>◌, null, field64}
use garbagecollector.Demo.LinkedList.{ioopm_linked_list_create, ioopm_linked_list_append}
use garbagecollector.Demo.HashTable.{
  capacity, cmp, cmp_value, key, value, next, Functions, bucket_at, chain_fuel,
}

-- `for (i < capacity) for (entry of the bucket i)`: the loops end early when `visit` says so. Nothing
-- that they call changes the capacity.
unfoldable pub visit_chain : ℕ → (ℕ → Cmd Bool) → ℕ → Cmd Bool
visit_chain zero visit entry = λ s. none
visit_chain (suc fuel) visit entry =
    let visited = (do
      done ← visit entry
      let rest = (do behind ← field64 entry next; visit_chain fuel visit behind)
      if done then pure true else rest) in
    if entry == null then pure false else visited

unfoldable pub visit_buckets : ℕ → (ℕ → Cmd Bool) → ℕ → ℕ → Cmd Bool
visit_buckets ht visit zero i = pure false
visit_buckets ht visit (suc left) i = do
  entry ← bucket_at ht i
  done ← visit_chain chain_fuel visit entry
  let rest = visit_buckets ht visit left (i + 1)
  if done then pure true else rest

unfoldable pub visit_all : ℕ → (ℕ → Cmd Bool) → Cmd Bool
visit_all ht visit = do n ← field64 ht capacity; visit_buckets ht visit n 0

unfoldable pub append_field : ℕ → ℕ → ℕ → Cmd Bool
append_field list field entry = do
  v ← field64 entry field
  ioopm_linked_list_append list v
  pure false

unfoldable pub ioopm_hash_table_keys : Functions → ℕ → Cmd ℕ
ioopm_hash_table_keys f ht = do
  keys ← ioopm_linked_list_create f.int_cmp
  _ ← visit_all ht (append_field keys key)
  pure keys

unfoldable pub ioopm_hash_table_values : Functions → ℕ → Cmd ℕ
ioopm_hash_table_values f ht = do
  values ← ioopm_linked_list_create f.string_cmp
  _ ← visit_all ht (append_field values value)
  pure values

-- A predicate gets both functions of the table that compare, a key and a value; its extra argument is
-- part of it.
abbrev pub Predicate : Type 0
Predicate = ℕ → ℕ → ℕ → ℕ → Cmd Bool

unfoldable pub holds_for : Predicate → ℕ → ℕ → Cmd Bool
holds_for pred ht entry = do
  c ← field64 ht cmp
  c' ← field64 ht cmp_value
  k ← field64 entry key
  v ← field64 entry value
  pred c c' k v

unfoldable pub ioopm_hash_table_any : Predicate → ℕ → Cmd Bool
ioopm_hash_table_any pred ht = visit_all ht (holds_for pred ht)

-- `key_equiv` and `value_equiv`; `x` is the address of the argument, which holds `other`.
unfoldable pub key_equiv : Functions → ℕ → Predicate
key_equiv f other c c' k v = f.compare c k other

unfoldable pub values_equiv : Functions → ℕ → Predicate
values_equiv f other c c' k v = f.compare c' v other

unfoldable pub ioopm_hash_table_has_key : Functions → ℕ → ℕ → Cmd Bool
ioopm_hash_table_has_key f ht k = ioopm_hash_table_any (key_equiv f k) ht

unfoldable pub ioopm_hash_table_has_value : Functions → ℕ → ℕ → Cmd Bool
ioopm_hash_table_has_value f ht v = ioopm_hash_table_any (values_equiv f v) ht

unfoldable pub fails_for : Predicate → ℕ → ℕ → Cmd Bool
fails_for pred ht entry = do holds ← holds_for pred ht entry; pure (not holds)

-- The predicate gets the address of `arg`, not `arg`.
unfoldable pub ioopm_hash_table_all : Predicate → ℕ → Cmd Bool
ioopm_hash_table_all pred ht = do failed ← visit_all ht (fails_for pred ht); pure (not failed)

-- The function gets a key and the address of a value.
unfoldable pub apply_to_entry : (ℕ → ℕ → Cmd (Unit {0})) → ℕ → Cmd Bool
apply_to_entry apply_fun entry = do k ← field64 entry key; apply_fun k (entry + value); pure false

unfoldable pub ioopm_hash_table_apply_to_all : (ℕ → ℕ → Cmd (Unit {0})) → ℕ → Cmd (Unit {0})
ioopm_hash_table_apply_to_all apply_fun ht = do _ ← visit_all ht (apply_to_entry apply_fun); pure tt
