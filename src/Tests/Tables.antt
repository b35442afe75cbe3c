-- ===== src/Tests/Tables.antt =====
-- The hash table of the demo programs at concrete inputs.
use garbagecollector.Base.{
  ℕ, ◌+◌, ◌-◌, ◌*◌, ◌%◌, ◌^◌, ◌≤◌, ◌<◌, ◌≡◌, ◌≢◌, refl, ap, ◌⊎◌, inl, inr, true, false, [], ◌∷◌,
  some, All, leb, ◌==◌, if◌then◌else◌, arith,
}
use garbagecollector.Memory.{Memory, store64, load64, load_bytes, store_bytes}
use garbagecollector.Memory.Sized.{load32}
use garbagecollector.Alloc.{State}
use garbagecollector.Alloc.Fresh.{HasRoom-IsSpare}
use garbagecollector.Demo.Common.{compare_int, hash_int, hash_string_sum}
use garbagecollector.Demo.Common.Hash.{hash_int-lt, hash_string_sum-lt}
use garbagecollector.Demo.HashTable.{
  buckets, size, capacity, key, value, next, Functions, find_next_capacity, ioopm_hash_table_lookup,
  ioopm_hash_table_insert,
}
use garbagecollector.Demo.HashTable.Bounds.{IsCapacity, find_next_capacity-lt}
use garbagecollector.Demo.HashTable.Chain.{Entry, Entries, value_of}
use garbagecollector.Demo.HashTable.Bucket.{IsBucket}
use garbagecollector.Demo.HashTable.Lookup.{ioopm_hash_table_lookup_lem}
use garbagecollector.Demo.HashTable.Insert.{insert-update}
use garbagecollector.Demo.HashTable.InsertNew.{insert-new}
use garbagecollector.Tests.Lists.{heap, heap-IsSpare}

-- Numbers as keys; a table is loaded when it has as many entries as buckets.
abbrev functions : Functions
functions = record {
  compare = λ c a b s. some (compare_int a b, s);
  hash = λ h k n s. some (hash_int k n, s);
  is_loaded = λ n m factor. leb m n;
  three_quarters = 1061158912;
  int_cmp = 1;
  string_cmp = 2;
}

-- A table of 17 buckets, with the entries 3 and 20 in the bucket 3.
abbrev memory : Memory
memory = store64 (4104 + size) 2 (
    store64 (4104 + capacity) 17 (
      store64 (4104 + buckets) 4160 (
        store64 (4160 + 8 * 3) 4310 (
          store64 (4310 + key) 3 (
            store64 (4310 + value) 30 (
              store64 (4310 + next) 4340
                (store64 (4340 + key) 20 (store64 (4340 + value) 31 (λ a. 0)))))))))

abbrev state : State
state = record { heap = heap; memory = memory }

abbrev three : Entry
three = record { address = 4310; its_key = 3; its_value = 30 }

abbrev twenty : Entry
twenty = record { address = 4340; its_key = 20; its_value = 31 }

-- The buckets of the two keys, and of 37.
bucket :
    (k : ℕ)
    → hash_int k 17 ≡ 3
    → IsBucket functions state 4104 k 3 compare_int (three ∷ twenty ∷ [])
unfolding store64 load64 load_bytes store_bytes
bucket k e = record {
  real = λ z. omega (arith, z);
  pure_compare = λ x y. refl;
  hashed = ap (λ b. some (b, state)) e;
  bucket_real = λ z. omega (arith, z);
  chain =
      (refl, λ z. omega (arith, z), refl, refl, (refl, λ z. omega (arith, z), refl, refl, refl));
  few = omega arith;
}

twenty_hash : hash_int 20 17 ≡ 3
unfolding hash_int
twenty_hash = refl

ioopm_hash_table_lookup_lem_example :
    ioopm_hash_table_lookup functions 4104 20 state
    ≡ some (value_of (λ k. compare_int k 20) (three ∷ twenty ∷ []), state)
ioopm_hash_table_lookup_lem_example =
    ioopm_hash_table_lookup_lem functions state 4104 20 3 compare_int (three ∷ twenty ∷ [])
      (bucket 20 twenty_hash)

light :
    functions.is_loaded
      ((load64 (4104 + size) memory + 1) % 2 ^ 64)
      (load64 (4104 + capacity) memory)
      (load32 (4104 + 24) memory)
    ≡ false
unfolding store64 load64 load_bytes store_bytes
light = refl

three_is_other : compare_int 3 20 ≡ false
unfolding compare_int
three_is_other = refl

twenty_is_same : compare_int 20 20 ≡ true
unfolding compare_int
twenty_is_same = refl

insert-update_example :
    (s' : State) × (ioopm_hash_table_insert functions 4104 20 99 state ≡ some (tt, s'))
    × Entries s'.memory
        (load64 (load64 (4104 + buckets) memory + 8 * 3 + 0) memory)
        (three ∷ record twenty { its_value = 99 } ∷ [])
    × ((a : ℕ) → (s'.memory a ≡ memory a) ⊎ ((4340 + 8 ≤ a) × (a < 4340 + 16)))
insert-update_example =
    insert-update functions state 4104 20 3 compare_int light 99 (three ∷ []) twenty []
      (bucket 20 twenty_hash) (three_is_other, tt) twenty_is_same (omega arith)
      (inl (omega arith), tt) tt

new_hash : hash_int 37 17 ≡ 3
unfolding hash_int
new_hash = refl

no_entry : All (λ (e : Entry). compare_int e.its_key 37 ≡ false) (three ∷ twenty ∷ [])
unfolding compare_int
no_entry = (refl, (refl, tt))

here : load64 (4104 + buckets) memory ≡ 4160
unfolding store64 load64 load_bytes store_bytes
here = refl

insert-new_example :
    (s' : State) × (ioopm_hash_table_insert functions 4104 37 50 state ≡ some (tt, s'))
    × Entries s'.memory
        (load64 (load64 (4104 + buckets) memory + 8 * 3 + 0) s'.memory)
        (record { address = 4400 + 8; its_key = 37; its_value = 50 } ∷ three ∷ twenty ∷ [])
    × (load64 (4104 + size) s'.memory ≡ (load64 (4104 + size) memory + 1) % 2 ^ 64)
    × (load64 (4104 + buckets) s'.memory ≡ load64 (4104 + buckets) memory)
insert-new_example =
    insert-new 4096 functions state 4104 37 3 50 compare_int (three ∷ twenty ∷ [])
      (bucket 37 new_hash) light no_entry
      (HasRoom-IsSpare 4096 state 100 100 24 (heap-IsSpare 100 100 (omega arith) (omega arith))
        (omega arith) (omega arith))
      (omega arith) (omega arith) (omega arith) (omega arith) (omega (arith, here))
      (inr (omega (arith, here))) (omega arith, (omega arith, tt))
      (inr (omega (arith, here)), (inr (omega (arith, here)), tt))
      (inr (omega arith), (inr (omega arith), tt))

find_next_capacity-lt_example :
    ((31 < find_next_capacity 31)
      × (find_next_capacity 31 ≤ 16381)
      × IsCapacity (find_next_capacity 31)
      × ((p : ℕ) → IsCapacity p → 31 < p → find_next_capacity 31 ≤ p))
    ⊎ ((16381 ≤ 31) × (find_next_capacity 31 ≡ 16381))
find_next_capacity-lt_example = find_next_capacity-lt 31

-- -5, in 17 buckets
hash_int-lt_example :
    (hash_int 4294967291 17 < 17)
    × (((4294967291 % 2 ^ 32 < 2 ^ 31) × (hash_int 4294967291 17 ≡ 4294967291 % 2 ^ 32 % 17))
        ⊎ ((2 ^ 31 ≤ 4294967291 % 2 ^ 32)
            × ((hash_int 4294967291 17 + (2 ^ 32 - 4294967291 % 2 ^ 32)) % 17 ≡ 0)))
hash_int-lt_example = hash_int-lt 4294967291 17 (omega arith) (omega arith)

-- "AB"
abbrev text : Memory
text a = if a == 100 then 65 else (if a == 101 then 66 else 0)

text_byte : (a : ℕ) → text a < 256
text_byte a = ground arith

text_inner : (j : ℕ) → 0 < j → j ≤ 1 → text (100 + j) ≢ 0
text_inner j low high e = ground (arith, low, high, e)

hash_string_sum-lt_example : (h : ℕ) × (hash_string_sum text 100 17 ≡ some h) × (h < 17)
hash_string_sum-lt_example =
    hash_string_sum-lt text 100 17 1 text_byte text_inner refl (omega arith) (omega arith)
      (omega arith)
