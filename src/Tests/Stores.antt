-- ===== src/Tests/Stores.antt =====
-- The store of the demo programs at concrete inputs.
use garbagecollector.Base.{
  ℕ, ◌+◌, ◌*◌, ◌%◌, ◌^◌, ◌≤◌, ◌<◌, ◌≡◌, ◌≢◌, refl, ◌⊎◌, inl, true, false, none, some, ◌==◌,
  if◌then◌else◌, arith,
}
use garbagecollector.Memory.{Memory, store64, load64, load_bytes, store_bytes}
use garbagecollector.Memory.Sized.{store32, load32}
use garbagecollector.Alloc.{State}
use garbagecollector.Demo.LinkedList.{value, current}
use garbagecollector.Demo.Store.{is_alpha, is_shelf, merch, amount_in_cart, price}
use garbagecollector.Demo.Store.Carts.{cost_loop, decrease_step, decrease_loop}
use garbagecollector.Demo.Store.Laws.{DigitAt, OtherAt, is_shelf_lem, cost_loop_lem}
use garbagecollector.Demo.Store.Stock.{IsEmptied, decrease_loop_endless}
use garbagecollector.Tests.Lists.{heap}

-- "A?1"
abbrev text : Memory
text a = if a == 100 then 65 else (if a == 101 then 63 else (if a == 102 then 49 else 0))

inner : (j : ℕ) → j < 3 → text (100 + j) ≢ 0
inner j low e = ground (arith, low, e)

is_shelf_lem_example :
    ((is_shelf text 100 ≡ some true)
      × (is_alpha (text 100) ≡ true)
      × (3 ≤ 3)
      × ((j : ℕ) → (3 ≤ 2 + j) ⊎ DigitAt text (100 + 2) j))
    ⊎ ((is_shelf text 100 ≡ some false)
        × ((is_alpha (text 100) ≡ false)
            ⊎ (3 < 3)
            ⊎ ((j : ℕ) × (2 + j < 3) × OtherAt text (100 + 2) j)))
is_shelf_lem_example = is_shelf_lem text 100 3 (omega arith) inner refl

-- An iterator at 100, at a link at 200 whose pair at 300 has 3 pieces of the merchandise at 400, which
-- costs 25.
abbrev cart_memory : Memory
cart_memory = store64 (100 + current) 200 (
    store64 (200 + value) 300 (
      store64 (300 + merch) 400
        (store32 (300 + amount_in_cart) 3 (store32 (400 + price) 25 (λ a. 0)))))

abbrev cart_state : State
cart_state = record { heap = heap; memory = cart_memory }

link : load64 (100 + current) cart_memory ≡ 200
unfolding store64 load64 store32 load32 load_bytes store_bytes
link = refl

pair : load64 (200 + value) cart_memory ≡ 300
unfolding store64 load64 store32 load32 load_bytes store_bytes
pair = refl

amount : load32 (300 + amount_in_cart) cart_memory ≡ 3
unfolding store64 load64 store32 load32 load_bytes store_bytes
amount = refl

its_merch : load64 (300 + merch) cart_memory ≡ 400
unfolding store64 load64 store32 load32 load_bytes store_bytes
its_merch = refl

its_price : load32 (400 + price) cart_memory ≡ 25
unfolding store64 load64 store32 load32 load_bytes store_bytes
its_price = refl

cost_loop_lem_example :
    cost_loop 2 0 100 cart_state ≡ some ((0 + 2 * (3 * 25)) % 2 ^ 32, cart_state)
cost_loop_lem_example =
    cost_loop_lem 2 0 100 200 300 400 3 25 cart_state (λ e. omega (arith, e)) link
      (λ e. omega (arith, e)) pair (λ e. omega (arith, e)) amount its_merch (λ e. omega (arith, e))
      its_price (omega arith)

-- An iterator at 100, at the last link at 200, whose shelf at 300 is empty.
abbrev shelf_memory : Memory
shelf_memory = store64 (100 + current) 200 (store64 (200 + value) 300 (λ a. 0))

abbrev shelf_state : State
shelf_state = record { heap = heap; memory = shelf_memory }

emptied : IsEmptied 100 200 300 shelf_state
unfolding store64 load64 store32 load32 load_bytes store_bytes
emptied = record { at = refl; last = refl; shelf = refl; stock = refl }

decrease_loop_endless_example :
    (decrease_loop 50 100 7 shelf_state ≡ none)
    × (s' : State) × (decrease_step 100 7 shelf_state ≡ some (7, s'))
    × IsEmptied 100 200 300 s'
decrease_loop_endless_example =
    decrease_loop_endless 100 200 300 7 (λ e. omega (arith, e)) (λ e. omega (arith, e))
      (λ e. omega (arith, e)) (inl (omega arith)) (inl (omega arith)) (omega arith) (omega arith) 50
      shelf_state emptied
