-- ===== src/Demo/HashTable/Delete.antt =====
-- The functions of demo/inlupp2/hash_table-dynamic.c that take entries away, and the size.
use garbagecollector.Base.{ℕ, zero, suc, ◌+◌, ◌-◌, ◌%◌, ◌^◌, Bool, false, if◌then◌else◌, ◌==◌}
use garbagecollector.Demo.{Cmd, pure, ◌>>=◌, ◌>>◌, null, field64, set_field64}
use garbagecollector.Demo.HashTable.{
  size, capacity, value, next, Functions, bucket_at, set_bucket, bucket_of, has_this_key,
  find_previous, ioopm_hash_table_lookup,
}

-- The first entry of a bucket leaves it, and its value is returned.
unfoldable pub remove_front : Functions → ℕ → ℕ → ℕ → Cmd ℕ
remove_front f ht bucket k = do
  front ← bucket_at ht bucket
  found ← if front == null then pure false else has_this_key f ht front k
  let removed = (do
    behind ← field64 front next
    set_bucket ht bucket (if behind == null then null else behind)
    field64 front value)
  if found then removed else pure null

unfoldable pub remove_behind : ℕ → Cmd ℕ
remove_behind prev = do
  entry ← field64 prev 0
  to_remove ← field64 entry next
  behind ← field64 to_remove next
  set_field64 entry next behind
  field64 to_remove value

-- An entry with the value 0 counts as missing.
unfoldable pub ioopm_hash_table_remove : Functions → ℕ → ℕ → Cmd ℕ
ioopm_hash_table_remove f ht k = do
  bucket ← bucket_of f ht k
  found ← ioopm_hash_table_lookup f ht k
  let removed = (do
    n ← field64 ht size
    set_field64 ht size ((n + (2 ^ 64 - 1)) % 2 ^ 64)
    prev ← find_previous f ht bucket k
    if prev == null then remove_front f ht bucket k else remove_behind prev)
  if found == null then pure null else removed

unfoldable pub ioopm_hash_table_size : ℕ → Cmd ℕ
ioopm_hash_table_size ht = field64 ht size

unfoldable pub ioopm_hash_table_is_empty : ℕ → Cmd Bool
ioopm_hash_table_is_empty ht = do n ← field64 ht size; pure (n == 0)

unfoldable pub clear_buckets : ℕ → ℕ → ℕ → Cmd (Unit {0})
clear_buckets ht zero i = pure tt
clear_buckets ht (suc left) i = do
  set_bucket ht i null
  set_field64 ht size 0
  clear_buckets ht left (i + 1)

unfoldable pub ioopm_hash_table_clear : ℕ → Cmd (Unit {0})
ioopm_hash_table_clear ht = do n ← field64 ht capacity; clear_buckets ht n 0
