-- ===== src/Demo/Store/Stock.antt =====
-- `decrease_stock` of demo/inlupp2/stor_functions.c on a last shelf that does not hold enough.
use garbagecollector.Base.{
  ℕ, zero, suc, ◌+◌, ◌^◌, ◌≤◌, ◌<◌, ◌≡◌, ◌≢◌, refl, ap, ◌∙◌, ◌⊎◌, true, none, some, arith,
}
use garbagecollector.Memory.{load64}
use garbagecollector.Memory.Sized.{load32, store32, load32-store32, load64-store32_outside}
use garbagecollector.Alloc.{State}
use garbagecollector.Demo.{int_ltb, int_sub}
use garbagecollector.Demo.Fields.{field64_lem, field32_lem, set_field32_lem}
use garbagecollector.Demo.LinkedList.{value, next, current}
use garbagecollector.Demo.Iterator.{
  ioopm_iterator_has_next, ioopm_iterator_current, ioopm_iterator_next,
}
use garbagecollector.Demo.Store.{num_of_merch}
use garbagecollector.Demo.Store.Carts.{decrease_step, decrease_loop}

-- The iterator stands at the last link of a list, whose shelf is empty.
pub record IsEmptied (it link pair : ℕ) (s : State) : Type 0 where
  pub at : load64 (it + current) s.memory ≡ link
  pub last : load64 (link + next) s.memory ≡ 0
  pub shelf : load64 (link + value) s.memory ≡ pair
  pub stock : load32 (pair + num_of_merch) s.memory ≡ 0

module _ (it link pair amount : ℕ) (real : it ≢ 0) (link_real : link ≢ 0) (pair_real : pair ≢ 0)
    (it_apart : (it + 16 ≤ pair) ⊎ (pair + 16 ≤ it))
    (link_apart : (link + 16 ≤ pair) ⊎ (pair + 16 ≤ link)) (some_left : 0 < amount)
    (int : amount < 2 ^ 31) where
  -- A round takes nothing and stays.
  decrease_step_lem :
      (s : State)
      → IsEmptied it link pair s
      → (s' : State) × (decrease_step it amount s ≡ some (amount, s')) × IsEmptied it link pair s'
  unfolding decrease_step ioopm_iterator_has_next ioopm_iterator_current ioopm_iterator_next
  decrease_step_lem s is =
      let m = store32 (pair + num_of_merch) 0 s.memory in
      let s' : State = record s { memory = m } in
      let kept = λ (a : ℕ) (out : (a + 8 ≤ pair) ⊎ (pair + 16 ≤ a)).
        load64-store32_outside a (pair + num_of_merch) 0 s.memory (ground (arith, out)) in
      let at : load64 (it + current) m ≡ link =
        kept (it + current) (ground (arith, it_apart)) ∙ is.at in
      let last : load64 (link + next) m ≡ 0 =
        kept (link + next) (ground (arith, link_apart)) ∙ is.last in
      let shelf : load64 (link + value) m ≡ pair =
        kept (link + value) (ground (arith, link_apart)) ∙ is.shelf in
      let less : int_ltb 0 amount ≡ true = ground (arith, some_left, int) in
      let same : int_sub amount 0 ≡ amount = omega (arith, int) in
      (
        s',
        rw
            (
              decrease_step,
              ioopm_iterator_current,
              field64_lem it current s real,
              is.at,
              field64_lem link value s link_real,
              is.shelf,
              field32_lem pair num_of_merch s pair_real,
              is.stock,
              less,
              set_field32_lem pair num_of_merch s pair_real 0,
              ioopm_iterator_next,
              ioopm_iterator_has_next,
              field64_lem it current s' real,
              at,
              field64_lem link next s' link_real,
              last,
              ioopm_iterator_current,
              field64_lem it current s' real,
              at,
              field64_lem link value s' link_real,
            )
            (ap (λ l. some (l, s')) same),
        record {
          at = at;
          last = last;
          shelf = shelf;
          stock = load32-store32 (pair + num_of_merch) 0 s.memory (omega arith);
        },
      )

  -- When the iterator of `decrease_stock` stands at the last shelf of a list, that shelf is empty,
  -- between 1 and 2 ^ 31 - 1 pieces are still to be taken, none of the pointers is NULL, and the
  -- iterator and the link lie apart from the shelf, the loop does not end: each round is defined,
  -- takes nothing and leaves the iterator there, and no fuel is enough.
  pub decrease_loop_endless :
      (fuel : ℕ) (s : State)
      → IsEmptied it link pair s
      → (decrease_loop fuel it amount s ≡ none)
        × (s' : State) × (decrease_step it amount s ≡ some (amount, s'))
        × IsEmptied it link pair s'
  unfolding decrease_loop
  decrease_loop_endless zero s is =
      let less : int_ltb 0 amount ≡ true = ground (arith, some_left, int) in
      let (s', run, is') = decrease_step_lem s is in (rw (decrease_loop, less) refl, s', run, is')
  decrease_loop_endless (suc fuel) s is =
      let less : int_ltb 0 amount ≡ true = ground (arith, some_left, int) in
      let (s', run, is') = decrease_step_lem s is in
      (rw (decrease_loop, less, run) (decrease_loop_endless fuel s' is').0, s', run, is')
