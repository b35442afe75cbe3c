-- ===== src/Demo/Store.antt =====
-- demo/inlupp2/stor_functions.c: merchandise and the shelves that it lies on. What is printed is left
-- out.
--
-- The offsets of the fields: a shelf pair is a name and a number of pieces; merchandise a name, a
-- description, a price and a list of shelf pairs; a cart pair merchandise and an amount; a database the
-- table of the merchandise, the table of the carts and the number of carts made.
pub mod Carts
pub mod Laws
pub mod Stock
use garbagecollector.Base.{
  ℕ, zero, suc, ◌+◌, ◌-◌, ◌*◌, ◌%◌, ◌^◌, Bool, true, false, not, ◌&&◌, ◌||◌, List, [], ◌∷◌,
  if◌then◌else◌, ◌==◌, ltb, leb, none, some,
}
use garbagecollector.Memory.{Memory}
use garbagecollector.Alloc.{State, Run}
use garbagecollector.Demo.{
  Cmd, pure, ◌>>=◌, ◌>>◌, null, field64, field32, set_field64, set_field32, alloc, alloc_raw,
  is_negative, int_ltb, int_add,
}
use garbagecollector.Demo.Common.{string_fuel, string_length, compare_string, h_strdup}
use garbagecollector.Demo.LinkedList.{
  rounds, ioopm_linked_list_create, ioopm_linked_list_append, ioopm_linked_list_prepend,
  ioopm_linked_list_remove,
}
use garbagecollector.Demo.LinkedList as L
use garbagecollector.Demo.Iterator.{
  ioopm_list_iterator, ioopm_iterator_current, ioopm_iterator_next,
}
use garbagecollector.Demo.HashTable.{
  Functions, ioopm_hash_table_insert, ioopm_hash_table_lookup, ioopm_hash_table_create,
}

abbrev pub shelf_name : ℕ
shelf_name = 0

abbrev pub num_of_merch : ℕ
num_of_merch = 8

abbrev pub name : ℕ
name = 0

abbrev pub description : ℕ
description = 8

abbrev pub price : ℕ
price = 16

abbrev pub shelfs : ℕ
shelfs = 24

abbrev pub merch : ℕ
merch = 0

abbrev pub amount_in_cart : ℕ
amount_in_cart = 8

abbrev pub all_merch : ℕ
all_merch = 0

abbrev pub all_carts : ℕ
all_carts = 8

abbrev pub created_carts : ℕ
created_carts = 16

-- The functions of the tables, and the words that point to `compare_shelfs`, `hash_string_sum` and
-- `hash_int`.
pub record Program : Type 0 where
  pub functions : Functions
  pub shelf_cmp : ℕ
  pub string_hash : ℕ
  pub int_hash : ℕ

-- "2ci*", "*i" and "2*i"
abbrev pub merch_fs : List ℕ
merch_fs = b'2' ∷ b'c' ∷ b'i' ∷ b'*' ∷ []

abbrev pub cart_fs : List ℕ
cart_fs = b'*' ∷ b'i' ∷ []

abbrev pub database_fs : List ℕ
database_fs = b'2' ∷ b'*' ∷ b'i' ∷ []

-- `isdigit` and `isalpha`
abbrev pub is_digit : ℕ → Bool
is_digit c = leb 48 c && leb c 57

abbrev pub is_alpha : ℕ → Bool
is_alpha c = (leb 65 c && leb c 90) || (leb 97 c && leb c 122)

-- The characters from `str` on, `left` of them, are digits.
-- The rounds from 2 to the length `n`. The index is an `int`: where it wraps, behind 2 ^ 31 - 1, the
-- comparison with a `size_t` ends the loop.
unfoldable pub digit_rounds : ℕ → ℕ
digit_rounds n = if ltb n (2 ^ 31) then n - 2 else 2 ^ 31 - 2

unfoldable pub digits_loop : ℕ → Memory → ℕ → Bool
digits_loop zero m str = true
digits_loop (suc left) m str =
    let rest = digits_loop left m (str + 1) in if not (is_digit (m str)) then false else rest

-- A letter, any character, and one digit or more.
unfoldable pub is_shelf : Memory → ℕ → Run Bool
is_shelf m shelf =
    let long : Run Bool = elim (string_length string_fuel m shelf) [
      | none ↦ none
      | some n ↦ some (if ltb n 3 then false else digits_loop (digit_rounds n) m (shelf + 2))
    ] in
    if is_alpha (m shelf) then long else some false

-- A loop over a list with an iterator: what it does to a value for each element. Nothing that the loops
-- call changes the list's size.
unfoldable pub fold_list : {A : Type 0} → (A → ℕ → Cmd A) → A → ℕ → ℕ → Cmd A
fold_list body acc zero it = pure acc
fold_list body acc (suc left) it = do
  v ← ioopm_iterator_current it
  acc' ← body acc v
  _ ← ioopm_iterator_next it
  fold_list body acc' left it

unfoldable pub for_each : {A : Type 0} → (A → ℕ → Cmd A) → A → ℕ → Cmd A
for_each body acc list = do
  it ← ioopm_list_iterator list
  n ← field32 list L.size
  fold_list body acc (rounds n) it

-- `keys[i] = ioopm_iterator_current(it).string`; `n * sizeof(char *)` of an `int` that is negative is
-- no number of bytes that the heap has.
unfoldable pub store_key : ℕ → ℕ → ℕ → Cmd ℕ
store_key keys i v = do set_field64 keys (8 * i) v; pure (i + 1)

unfoldable pub create_array_from_list : ℕ → Cmd ℕ
create_array_from_list list = do
  n ← field32 list L.size
  keys ← alloc_raw (if is_negative n then (n + (2 ^ 64 - 2 ^ 32)) * 8 % 2 ^ 64 else n * 8)
  _ ← for_each (store_key keys) 0 list
  pure keys

unfoldable pub compare_shelfs : ℕ → ℕ → Cmd Bool
compare_shelfs s1 s2 = do
  name1 ← field64 s1 shelf_name
  name2 ← field64 s2 shelf_name
  compare_string name1 name2

unfoldable pub make_merch : Program → ℕ → ℕ → ℕ → Cmd ℕ
make_merch p its_name its_description its_price = do
  new_merch ← alloc merch_fs
  set_field64 new_merch name its_name
  set_field64 new_merch description its_description
  set_field32 new_merch price its_price
  list ← ioopm_linked_list_create p.shelf_cmp
  set_field64 new_merch shelfs list
  pure new_merch

unfoldable pub add_merchandise : Program → ℕ → ℕ → ℕ → ℕ → Cmd (Unit {0})
add_merchandise p its_name its_description its_price table = do
  found ← ioopm_hash_table_lookup p.functions table its_name
  let added = (do
    v ← make_merch p its_name its_description its_price
    ioopm_hash_table_insert p.functions table its_name v)
  if found == null then added else pure tt

-- `sizeof(char *) * sizeof(int)` bytes
unfoldable pub create_shelf_pair : ℕ → ℕ → Cmd ℕ
create_shelf_pair its_name number = do
  new_pair ← alloc_raw 32
  set_field64 new_pair shelf_name its_name
  set_field32 new_pair num_of_merch number
  pure new_pair

unfoldable pub copy_shelf : ℕ → Unit {0} → ℕ → Cmd (Unit {0})
copy_shelf new_shelfs _ shelf_pair = do
  number ← field32 shelf_pair num_of_merch
  old_name ← field64 shelf_pair shelf_name
  its_name ← h_strdup old_name
  new_pair ← create_shelf_pair its_name number
  ioopm_linked_list_prepend new_shelfs new_pair

unfoldable pub copy_shelfs : Program → ℕ → Cmd ℕ
copy_shelfs p old_shelfs = do
  new_shelfs ← ioopm_linked_list_create p.functions.string_cmp
  for_each (copy_shelf new_shelfs) tt old_shelfs
  pure new_shelfs

-- The index of the shelf, or -1.
unfoldable pub index_loop : ℕ → ℕ → ℕ → ℕ → Cmd ℕ
index_loop zero i it wanted = pure (2 ^ 32 - 1)
index_loop (suc left) i it wanted = do
  shelf_pair ← ioopm_iterator_current it
  its_name ← field64 shelf_pair shelf_name
  same ← compare_string its_name wanted
  let rest = (do _ ← ioopm_iterator_next it; index_loop left (i + 1) it wanted)
  if same then pure i else rest

unfoldable pub index_for_shelf_pair : ℕ → ℕ → Cmd ℕ
index_for_shelf_pair list wanted = do
  it ← ioopm_list_iterator list
  n ← field32 list L.size
  index_loop (rounds n) 0 it wanted

unfoldable pub add_number : ℕ → ℕ → Cmd ℕ
add_number num shelf_pair = do n ← field32 shelf_pair num_of_merch; pure (int_add num n)

unfoldable pub num_for_shelfs : ℕ → Cmd ℕ
num_for_shelfs list = for_each add_number 0 list

-- `is_shelf` of a name
unfoldable pub ask_shelf : ℕ → Cmd Bool
ask_shelf shelf s = elim (is_shelf s.memory shelf) [ none ↦ none | some b ↦ some (b, s) ]

unfoldable pub replenish_shelf : ℕ → ℕ → ℕ → ℕ → Cmd (Unit {0})
replenish_shelf list index shelf number =
    let new_shelf = (do
      new_pair ← create_shelf_pair shelf number
      ioopm_linked_list_prepend list new_pair) in
    let old_shelf = (do
      pair ← ioopm_linked_list_remove list index
      n ← field32 pair num_of_merch
      its_name ← field64 pair shelf_name
      new_pair ← create_shelf_pair its_name (int_add n number)
      ioopm_linked_list_append list new_pair) in
    if is_negative index then new_shelf else old_shelf

unfoldable pub replenish : Program → ℕ → ℕ → ℕ → ℕ → Cmd (Unit {0})
replenish p table its_name shelf number = do
  found ← ioopm_hash_table_lookup p.functions table its_name
  valid ← if found == null then pure false else ask_shelf shelf
  let replenished = (do
    list ← field64 found shelfs
    index ← index_for_shelf_pair list shelf
    replenish_shelf list index shelf number)
  if valid then replenished else pure tt
