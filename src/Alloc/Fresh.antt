-- ===== src/Alloc/Fresh.antt =====
-- An allocation behind the front, in the rest of an active space.
use garbagecollector.Base.{
  some_inj, ℕ, ◌+◌, ◌-◌, ◌*◌, ◌/◌, ◌^◌, ◌≤◌, ◌≡◌, ap, sym, ◌∙◌, inl, inr, true, List, ◌∷◌, none,
  some, get_elem?, length, arith,
}
use garbagecollector.FormatStr.{ok, create_format_str, format_str_bytes}
use garbagecollector.BitVector.{to_bit_vector, required_bits}
use garbagecollector.Heap.{Heap, space_size_bytes, h_avail, h_used}
use garbagecollector.Heap.Shape.{IsHeap}
use garbagecollector.Alloc.{State, Allocation, header_size, h_alloc_struct}
use garbagecollector.Alloc.Place.{IsPlaced}
use garbagecollector.Alloc.Struct.{h_alloc_struct_lem}
use garbagecollector.Alloc.Room.{space_of, pointer_for, h_alloc_struct-pointer}
use garbagecollector.FormatStr.Fields.{ok_inj}
use mathlib.Core.Path.{subst}

-- A heap of the right shape whose front is in an active space, with room there for an object of
-- `size` bytes and its two words, and with the bytes for it unused.
pub record HasRoom (start : ℕ) (s : State) (size : ℕ) : Type 0 where
  pub shape : IsHeap start s.heap
  pub active :
      get_elem? s.heap.space_is_active ((s.heap.alloc_front - start) / space_size_bytes) ≡ some true
  pub avail : size + header_size ≤ h_avail s.heap
  pub fits :
      s.heap.alloc_front + 2 * header_size + size
      ≤ space_of start s.heap.alloc_front + space_size_bytes

-- The rest of the active space that the front is in has `bytes` bytes, the heap may use `used` more by
-- its own count, and the space ends below 2 ^ 64.
pub record IsSpare (start : ℕ) (h : Heap) (bytes used : ℕ) : Type 0 where
  pub shape : IsHeap start h
  pub space : ℕ
  pub active : get_elem? h.space_is_active space ≡ some true
  pub low : start + space * space_size_bytes ≤ h.alloc_front
  pub high : h.alloc_front + bytes ≤ start + space * space_size_bytes + space_size_bytes
  pub counted : h.used_bytes + used ≤ h.size
  pub addressable : start + space * space_size_bytes + space_size_bytes ≤ 2 ^ 64

pub HasRoom-IsSpare :
    (start : ℕ) (s : State) (bytes used size : ℕ)
    → IsSpare start s.heap bytes used
    → size + 2 * header_size ≤ bytes
    → 2 * size + 3 * header_size ≤ used
    → HasRoom start s size
unfolding h_avail h_used space_of
HasRoom-IsSpare start s bytes used size spare fits counted =
    let here : (s.heap.alloc_front - start) / space_size_bytes ≡ spare.space =
      omega (arith, spare.low, spare.high) in
    record {
      shape = spare.shape;
      active = rw here spare.active;
      avail = ground (arith, spare.counted);
      fits = omega (arith, here, spare.low, spare.high);
    }

-- What an object of `size` bytes leaves.
pub IsSpare-after :
    (start : ℕ) (h h' : Heap) (bytes used b u size : ℕ)
    → IsSpare start h bytes used
    → b + size + 2 * header_size ≤ bytes
    → u + 2 * size + 3 * header_size ≤ used
    → IsHeap start h'
    → h'.space_is_active ≡ h.space_is_active
    → h'.alloc_front ≡ h.alloc_front + size + 2 * header_size
    → h'.used_bytes ≡ h.used_bytes + 2 * size + 3 * header_size
    → IsSpare start h' b u
IsSpare-after start h h' bytes used b u size spare fits fewer shape flags front counted =
    let spaces : h'.number_of_spaces ≡ h.number_of_spaces =
      sym shape.flags_length ∙ ap length flags ∙ spare.shape.flags_length in
    record {
      shape = shape;
      space = spare.space;
      active = rw flags spare.active;
      low = omega (arith, spare.low, front);
      high = omega (arith, spare.high, front);
      counted = omega (arith, spare.counted, counted, spaces, shape.size_eq, spare.shape.size_eq);
      addressable = spare.addressable;
    }

-- With such room, and a format string of fields with at most 54 layout bits, the object is placed right
-- behind the front.
pub h_alloc_struct-IsPlaced :
    (start : ℕ) (s : State) (c : ℕ) (layout format : List ℕ)
    → HasRoom start s (format_str_bytes format)
    → create_format_str (some (c ∷ layout)) ≡ ok format
    → required_bits format ≤ 54
    → (a : Allocation) × (h_alloc_struct (some (c ∷ layout)) s ≡ some a)
      × (a.pointer ≡ some (s.heap.alloc_front + header_size))
      × IsPlaced start s
          (format_str_bytes format)
          (to_bit_vector format).bit_vector
          (s.heap.alloc_front + header_size)
          a.state
unfolding pointer_for
h_alloc_struct-IsPlaced start s c layout format room e bits =
    let size = format_str_bytes format in
    let (a, run, pointer) =
      h_alloc_struct-pointer start s c layout format room.shape room.active e bits room.avail in
    let here : a.pointer ≡ some (s.heap.alloc_front + header_size) =
      pointer ∙ ground (arith, room.fits) in
    let (a', run', end) =
      h_alloc_struct_lem start s room.shape (some (c ∷ layout)) (λ q. ground (arith, e, q)) in
    let same : a' ≡ a = some_inj a' a (sym run' ∙ run) in
    elim end [
      | inl r ↦
          let clash : none ≡ some (s.heap.alloc_front + header_size) =
            sym r.pointer_eq ∙ ap (λ (b : Allocation). b.pointer) same ∙ here in
          ground (arith, clash)
      | inr r ↦
          let at : r.address ≡ s.heap.alloc_front + header_size =
            some_inj r.address (s.heap.alloc_front + header_size)
              (sym r.pointer_eq ∙ ap (λ (b : Allocation). b.pointer) same ∙ here) in
          let for : r.format ≡ format = ok_inj r.format format (sym r.format_eq ∙ e) in
          (
            a,
            run,
            here,
            subst
                (λ (b : Allocation).
                  IsPlaced start s size (to_bit_vector format).bit_vector
                    (s.heap.alloc_front + header_size) b.state)
                same
                (subst
                  (λ (p : ℕ). IsPlaced start s size (to_bit_vector format).bit_vector p a'.state) at
                  (subst
                    (λ (f : List ℕ).
                      IsPlaced start s (format_str_bytes f) (to_bit_vector f).bit_vector r.address
                        a'.state)
                    for r.object)),
          )
    ]
