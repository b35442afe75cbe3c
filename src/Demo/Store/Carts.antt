-- ===== src/Demo/Store/Carts.antt =====
-- demo/inlupp2/stor_functions.c: carts, what they cost, the checkout and the database. What is printed
-- is left out. The key of a cart is its number.
use garbagecollector.Base.{ℕ, zero, suc, ◌-◌, ◌%◌, ◌^◌, Bool, not, if◌then◌else◌, ◌==◌, none}
use garbagecollector.Demo.{
  Cmd, pure, ◌>>=◌, ◌>>◌, null, field64, field32, set_field64, set_field32, alloc, int_ltb, int_add,
  int_sub, int_mul,
}
use garbagecollector.Demo.LinkedList.{rounds}
use garbagecollector.Demo.LinkedList as L
use garbagecollector.Demo.Iterator.{
  ioopm_list_iterator, ioopm_iterator_current, ioopm_iterator_next,
}
use garbagecollector.Demo.HashTable.{
  ioopm_hash_table_insert, ioopm_hash_table_lookup, ioopm_hash_table_create,
}
use garbagecollector.Demo.HashTable.Delete.{ioopm_hash_table_remove}
use garbagecollector.Demo.HashTable.Visit.{ioopm_hash_table_keys, ioopm_hash_table_values}
use garbagecollector.Demo.Store.{
  Program, num_of_merch, name, price, shelfs, merch, amount_in_cart, all_merch, all_carts,
  created_carts, cart_fs, database_fs, for_each, add_merchandise, copy_shelfs, num_for_shelfs,
}

unfoldable pub create_cart : Program → ℕ → ℕ → Cmd (Unit {0})
create_cart p carts cart_key = do
  cart ←
      ioopm_hash_table_create p.functions p.string_hash p.functions.string_cmp p.functions.int_cmp
  ioopm_hash_table_insert p.functions carts cart_key cart

unfoldable pub create_cart_pair : ℕ → ℕ → Cmd ℕ
create_cart_pair its_merch amount = do
  pair ← alloc cart_fs
  set_field64 pair merch its_merch
  set_field32 pair amount_in_cart amount
  pure pair

unfoldable pub add_amount : ℕ → ℕ → Cmd ℕ
add_amount counter pair = do n ← field32 pair amount_in_cart; pure (int_add counter n)

unfoldable pub num_of_merch_in_one_cart : Program → ℕ → Cmd ℕ
num_of_merch_in_one_cart p cart = do
  pairs ← ioopm_hash_table_values p.functions cart
  for_each add_amount 0 pairs

unfoldable pub add_cart : Program → ℕ → ℕ → Cmd ℕ
add_cart p total cart = do n ← num_of_merch_in_one_cart p cart; pure (int_add total n)

unfoldable pub num_of_merch_in_carts : Program → ℕ → Cmd ℕ
num_of_merch_in_carts p carts = do
  list ← ioopm_hash_table_values p.functions carts
  for_each (add_cart p) 0 list

-- `a <= b` of `int`s
abbrev pub int_leb : ℕ → ℕ → Bool
int_leb a b = not (int_ltb b a)

-- The amount of a pair that is in the cart already; the pair is taken out.
unfoldable pub take_pair : Program → ℕ → ℕ → ℕ → Cmd ℕ
take_pair p cart its_name pair =
    let taken = (do
      n ← field32 pair amount_in_cart
      _ ← ioopm_hash_table_remove p.functions cart its_name
      pure n) in
    if pair == null then pure 0 else taken

unfoldable pub put_pair : Program → ℕ → ℕ → ℕ → Cmd (Unit {0})
put_pair p cart its_merch amount = do
  pair ← create_cart_pair its_merch amount
  its_key ← field64 its_merch name
  ioopm_hash_table_insert p.functions cart its_key pair

unfoldable pub add_to_this_cart : Program → ℕ → ℕ → ℕ → ℕ → ℕ → Cmd (Unit {0})
add_to_this_cart p carts cart its_merch its_name quantity = do
  pair ← ioopm_hash_table_lookup p.functions cart its_name
  in_carts ← num_of_merch_in_carts p carts
  list ← field64 its_merch shelfs
  stock ← num_for_shelfs list
  let added = (do
    already ← take_pair p cart its_name pair
    list' ← field64 its_merch shelfs
    stock' ← num_for_shelfs list'
    let amount = int_add quantity already
    if int_leb amount stock' then put_pair p cart its_merch amount else pure tt)
  if int_leb (int_add quantity in_carts) stock then added else pure tt

unfoldable pub add_to_cart : Program → ℕ → ℕ → ℕ → ℕ → ℕ → Cmd (Unit {0})
add_to_cart p table carts cart_key its_name quantity = do
  its_merch ← ioopm_hash_table_lookup p.functions table its_name
  let known = (do
    cart ← ioopm_hash_table_lookup p.functions carts cart_key
    let added = add_to_this_cart p carts cart its_merch its_name quantity
    if cart == null then pure tt else added)
  if its_merch == null then pure tt else known

unfoldable pub remove_from_pair : Program → ℕ → ℕ → ℕ → ℕ → Cmd (Unit {0})
remove_from_pair p cart pair its_name quantity = do
  n ← field32 pair amount_in_cart
  let merch_after_remove = int_sub n quantity
  let removed = (do _ ← ioopm_hash_table_remove p.functions cart its_name; pure tt)
  let fewer = (do
    its_merch ← field64 pair merch
    new_pair ← create_cart_pair its_merch merch_after_remove
    ioopm_hash_table_insert p.functions cart its_name new_pair)
  if int_leb merch_after_remove 0 then removed else fewer

unfoldable pub remove_from_cart : Program → ℕ → ℕ → ℕ → ℕ → Cmd (Unit {0})
remove_from_cart p carts cart_key its_name quantity = do
  cart ← ioopm_hash_table_lookup p.functions carts cart_key
  let known = (do
    pair ← ioopm_hash_table_lookup p.functions cart its_name
    if pair == null then pure tt else remove_from_pair p cart pair its_name quantity)
  if cart == null then pure tt else known

-- The number of an element is its low 4 bytes.
unfoldable pub remove_in_cart : Program → ℕ → ℕ → ℕ → Unit {0} → ℕ → Cmd (Unit {0})
remove_in_cart p carts its_name quantity _ v =
    remove_from_cart p carts (v % 2 ^ 32) its_name quantity

unfoldable pub remove_merchandise_all_carts : Program → ℕ → ℕ → ℕ → Cmd (Unit {0})
remove_merchandise_all_carts p carts its_name quantity = do
  keys ← ioopm_hash_table_keys p.functions carts
  for_each (remove_in_cart p carts its_name quantity) tt keys

unfoldable pub remove_merchandise : Program → ℕ → ℕ → ℕ → Cmd (Unit {0})
remove_merchandise p carts table its_name = do
  its_merch ← ioopm_hash_table_lookup p.functions table its_name
  let removed = (do
    list ← field64 its_merch shelfs
    stock ← num_for_shelfs list
    remove_merchandise_all_carts p carts its_name stock
    _ ← ioopm_hash_table_remove p.functions table its_name
    pure tt)
  if its_merch == null then pure tt else removed

unfoldable pub edit_merchandise : Program → ℕ → ℕ → ℕ → ℕ → ℕ → ℕ → Cmd (Unit {0})
edit_merchandise p table carts its_name new_name new_description new_price = do
  its_merch ← ioopm_hash_table_lookup p.functions table its_name
  let edited = (do
    list ← field64 its_merch shelfs
    new_shelfs ← copy_shelfs p list
    remove_merchandise p carts table its_name
    add_merchandise p new_name new_description new_price table
    new_merch ← ioopm_hash_table_lookup p.functions table new_name
    set_field64 new_merch shelfs new_shelfs)
  if its_merch == null then pure tt else edited

unfoldable pub remove_cart : Program → ℕ → ℕ → Cmd (Unit {0})
remove_cart p cart_key carts = do
  cart ← ioopm_hash_table_lookup p.functions carts cart_key
  let removed = (do _ ← ioopm_hash_table_remove p.functions carts cart_key; pure tt)
  if cart == null then pure tt else removed

-- The loop never moves its iterator: it adds the first pair's cost as often as there are pairs.
unfoldable pub cost_loop : ℕ → ℕ → ℕ → Cmd ℕ
cost_loop zero total it = pure total
cost_loop (suc left) total it = do
  pair ← ioopm_iterator_current it
  amount ← field32 pair amount_in_cart
  its_merch ← field64 pair merch
  its_price ← field32 its_merch price
  cost_loop left (int_add total (int_mul amount its_price)) it

-- -1 for a cart that does not exist.
unfoldable pub calculate_cost : Program → ℕ → ℕ → Cmd ℕ
calculate_cost p carts cart_key = do
  cart ← ioopm_hash_table_lookup p.functions carts cart_key
  let calculated = (do
    pairs ← ioopm_hash_table_values p.functions cart
    it ← ioopm_list_iterator pairs
    n ← field32 pairs L.size
    cost_loop (rounds n) 0 it)
  if cart == null then pure (2 ^ 32 - 1) else calculated

-- One round of the loop: what is left to take after a shelf.
unfoldable pub decrease_step : ℕ → ℕ → Cmd ℕ
decrease_step it amount = do
  shelf_pair ← ioopm_iterator_current it
  shelf_stock ← field32 shelf_pair num_of_merch
  let all_of_it = (do set_field32 shelf_pair num_of_merch 0; pure (int_sub amount shelf_stock))
  let part_of_it = (do set_field32 shelf_pair num_of_merch (int_sub shelf_stock amount); pure 0)
  left ← if int_ltb shelf_stock amount then all_of_it else part_of_it
  _ ← ioopm_iterator_next it
  pure left

-- `while (amount_to_decrease > 0)`, on fuel.
unfoldable pub decrease_loop : ℕ → ℕ → ℕ → Cmd (Unit {0})
decrease_loop zero it amount = if int_ltb 0 amount then (λ s. none) else pure tt
decrease_loop (suc fuel) it amount =
    let round = (do left ← decrease_step it amount; decrease_loop fuel it left) in
    if int_ltb 0 amount then round else pure tt

unfoldable pub decrease_stock : ℕ → ℕ → ℕ → Cmd (Unit {0})
decrease_stock fuel its_merch amount = do
  list ← field64 its_merch shelfs
  it ← ioopm_list_iterator list
  decrease_loop fuel it amount

unfoldable pub checkout_pair : ℕ → Unit {0} → ℕ → Cmd (Unit {0})
checkout_pair fuel _ pair = do
  its_merch ← field64 pair merch
  amount ← field32 pair amount_in_cart
  decrease_stock fuel its_merch amount

unfoldable pub checkout : ℕ → Program → ℕ → ℕ → Cmd (Unit {0})
checkout fuel p carts cart_key = do
  cart ← ioopm_hash_table_lookup p.functions carts cart_key
  let sold = (do
    pairs ← ioopm_hash_table_values p.functions cart
    for_each (checkout_pair fuel) tt pairs
    remove_cart p cart_key carts)
  if cart == null then pure tt else sold

unfoldable pub create_database : Program → Cmd ℕ
create_database p = do
  database ← alloc database_fs
  merchandise ←
      ioopm_hash_table_create p.functions p.string_hash p.functions.string_cmp p.functions.int_cmp
  set_field64 database all_merch merchandise
  carts ← ioopm_hash_table_create p.functions p.int_hash p.functions.int_cmp p.functions.int_cmp
  set_field64 database all_carts carts
  set_field32 database created_carts 0
  pure database
