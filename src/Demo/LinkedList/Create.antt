-- ===== src/Demo/LinkedList/Create.antt =====
-- `create` and `clear` in the collected heap.
use mathlib.Core.Path.{subst}
use garbagecollector.Base.{
  ℕ, ◌+◌, ◌*◌, ◌^◌, ◌≤◌, ◌<◌, ◌≡◌, ◌≢◌, refl, sym, ◌∙◌, ◌⊎◌, inl, inr, List, [], ◌∷◌, some, arith,
}
use garbagecollector.Memory.{
  Memory, load64, store64, load64-store64, store64_outside, load64-store64_outside,
}
use garbagecollector.Memory.Sized.{store32, load32-store32, store32_outside, load64-store32_outside}
use garbagecollector.FormatStr.{
  ok, create_format_str, format_str_bytes, isdigit, is_layout_char, interpreted_format_str,
  interpret, expanded_length, expanded_str, write_buffer, next_count, size_of_int, count_rounds,
}
use garbagecollector.Utils.{isspace, trim_whitespace, trim_end, skip_spaces, last_kept}
use garbagecollector.BitVector.{required_bits}
use garbagecollector.Alloc.{State, header_size}
use garbagecollector.Alloc.Fresh.{HasRoom, IsSpare, HasRoom-IsSpare, IsSpare-after}
use garbagecollector.Demo.Fields.{set_field64_lem, set_field32_lem, alloc-IsPlaced}
use garbagecollector.Demo.LinkedList.{
  first, last, cmp, size, list_fs, ioopm_linked_list_create, ioopm_linked_list_clear,
}
use garbagecollector.Demo.LinkedList.Shape.{Cell, IsList}
use garbagecollector.Demo.LinkedList.Stored.{IsStored}

list_fields : List ℕ
list_fields = b'*' ∷ b'*' ∷ b'*' ∷ b'i' ∷ []

list_format : create_format_str (some list_fs) ≡ ok list_fields
unfolding list_fields isspace trim_whitespace trim_end skip_spaces last_kept isdigit is_layout_char
    interpreted_format_str interpret expanded_length expanded_str write_buffer create_format_str
    next_count size_of_int count_rounds
list_format = refl

list_bytes : format_str_bytes list_fields ≡ 28
unfolding list_fields format_str_bytes
list_bytes = refl

list_bits : required_bits list_fields ≤ 54
unfolding list_fields required_bits
list_bits = omega arith

-- The fields `first`, `last` and `size`, set to no links.
emptied : ℕ → Memory → Memory
emptied list m = store32 (list + size) 0 (store64 (list + last) 0 (store64 (list + first) 0 m))

module _ (list : ℕ) (m : Memory) where
  emptied_outside : (a : ℕ) → (emptied list m a ≡ m a) ⊎ ((list ≤ a) × (a < list + 28))
  unfolding emptied
  emptied_outside a =
      let m₁ = store64 (list + first) 0 m in
      let m₂ = store64 (list + last) 0 m₁ in
      ground (
        arith,
        store32_outside a (list + size) 0 m₂,
        store64_outside (list + last) 0 m₁ a,
        store64_outside (list + first) 0 m a,
      )

  emptied-IsList : list ≢ 0 → IsList (emptied list m) list []
  unfolding emptied
  emptied-IsList real =
      let m₁ = store64 (list + first) 0 m in
      let m₂ = store64 (list + last) 0 m₁ in
      record {
        real = real;
        chain =
            load64-store32_outside (list + first) (list + size) 0 m₂ (inl (omega arith))
            ∙ load64-store64_outside (list + last) 0 m₁ (list + first) (inl (omega arith))
            ∙ load64-store64 (list + first) 0 m (omega arith);
        end = inl refl;
        count = load32-store32 (list + size) 0 m₂ (omega arith);
        separate = tt;
        apart = tt;
      }

-- With 44 bytes of room in the active space, 80 by the count that the heap keeps, and nothing but
-- zeros from the front on, and for a function that is a word, `ioopm_linked_list_create` gives a
-- list behind the front that has no elements, keeps the function it is given, and leaves the rest
-- of the room for less than 2 ^ 31 links.
pub ioopm_linked_list_create-IsStored :
    (start : ℕ) (s : State) (cmp_fun n : ℕ)
    → IsSpare start s.heap (32 * n + 44) (56 * n + 80)
    → ((a : ℕ) → (a < s.heap.alloc_front) ⊎ (s.memory a ≡ 0))
    → n < 2 ^ 31
    → cmp_fun < 2 ^ 64
    → (s' : State) × (ioopm_linked_list_create cmp_fun s
        ≡ some (s.heap.alloc_front + header_size, s'))
      × IsStored start s' (s.heap.alloc_front + header_size) [] n
      × (load64 (s.heap.alloc_front + header_size + cmp) s'.memory ≡ cmp_fun)
unfolding ioopm_linked_list_create emptied
ioopm_linked_list_create-IsStored start s cmp_fun n spare clean few small =
    let list = s.heap.alloc_front + header_size in
    let real : list ≢ 0 = λ e. omega (arith, e) in
    let room =
      HasRoom-IsSpare start s (32 * n + 44) (56 * n + 80) 28 spare (omega arith) (omega arith) in
    let (s₁, run, placed) =
      alloc-IsPlaced start s b'3' (b'*' ∷ b'i' ∷ []) list_fields
        (subst (HasRoom start s) (sym list_bytes) room) list_format list_bits in
    let m = store64 (list + cmp) cmp_fun s₁.memory in
    let m₁ = store64 (list + first) 0 m in
    let m₂ = store64 (list + last) 0 m₁ in
    (
      record s₁ { memory = emptied list m },
      rw
          (
            ioopm_linked_list_create,
            run,
            set_field64_lem list cmp s₁ real cmp_fun,
            set_field64_lem list first (record s₁ { memory = m }) real 0,
            set_field64_lem list last (record s₁ { memory = m₁ }) real 0,
            set_field32_lem list size (record s₁ { memory = m₂ }) real 0,
          )
          refl,
      record {
        is_list = emptied-IsList list m real;
        list_below = omega (arith, placed.front_eq, list_bytes);
        below = tt;
        clean = λ a. ground (
          arith,
          emptied_outside list m a,
          store64_outside (list + cmp) cmp_fun s₁.memory a,
          placed.frame a,
          clean a,
          placed.front_eq,
          list_bytes,
        );
        spare =
            IsSpare-after start s.heap s₁.heap (32 * n + 44) (56 * n + 80) (32 * n) (56 * n) 28
              spare (omega arith) (omega arith) placed.shape placed.same_flags
              (omega (arith, placed.front_eq, list_bytes))
              (omega (arith, placed.used_eq, list_bytes));
        few = omega (arith, few);
      },
      load64-store32_outside (list + cmp) (list + size) 0 m₂ (inl (omega arith))
          ∙ load64-store64_outside (list + last) 0 m₁ (list + cmp) (inr (omega arith))
          ∙ load64-store64_outside (list + first) 0 m (list + cmp) (inr (omega arith))
          ∙ load64-store64 (list + cmp) cmp_fun s₁.memory small,
    )

-- A cleared list has no elements; room for new links stays.
pub ioopm_linked_list_clear-IsStored :
    (start : ℕ) (s : State) (list : ℕ) (cells : List Cell) (n : ℕ)
    → IsStored start s list cells n
    → (s' : State) × (ioopm_linked_list_clear list s ≡ some (tt, s')) × IsStored start s' list [] n
unfolding ioopm_linked_list_clear emptied
ioopm_linked_list_clear-IsStored start s list cells n stored =
    let real = stored.is_list.real in
    let m₁ = store64 (list + first) 0 s.memory in
    let m₂ = store64 (list + last) 0 m₁ in
    (
      record s { memory = emptied list s.memory },
      rw
          (
            ioopm_linked_list_clear,
            set_field64_lem list first s real 0,
            set_field64_lem list last (record s { memory = m₁ }) real 0,
            set_field32_lem list size (record s { memory = m₂ }) real 0,
          )
          refl,
      record {
        is_list = emptied-IsList list s.memory real;
        list_below = stored.list_below;
        below = tt;
        clean =
            λ a. ground (arith, emptied_outside list s.memory a, stored.clean a, stored.list_below);
        spare = stored.spare;
        few = omega (arith, stored.few);
      },
    )
