-- ===== src/Demo/Fields.antt =====
-- What the commands of the demo programs do: an access through a pointer that is not NULL, and an
-- allocation with room.
use garbagecollector.Base.{ℕ, ◌+◌, ◌≤◌, ◌≡◌, ◌≢◌, refl, false, List, ◌∷◌, some, ◌==◌, arith}
use garbagecollector.Memory.{load64, store64}
use garbagecollector.Memory.Sized.{load32, store32}
use garbagecollector.FormatStr.{ok, create_format_str, format_str_bytes}
use garbagecollector.BitVector.{to_bit_vector, required_bits}
use garbagecollector.Alloc.{State, header_size}
use garbagecollector.Alloc.Place.{IsPlaced}
use garbagecollector.Alloc.Fresh.{HasRoom, h_alloc_struct-IsPlaced}
use garbagecollector.Demo.{null, field64, field32, set_field64, set_field32, alloc}

module _ (p offset : ℕ) (s : State) (real : p ≢ 0) where
  pub not_null : (p == null) ≡ false
  not_null = ground (arith, real)

  pub field64_lem : field64 p offset s ≡ some (load64 (p + offset) s.memory, s)
  unfolding field64
  field64_lem = rw not_null

  pub field32_lem : field32 p offset s ≡ some (load32 (p + offset) s.memory, s)
  unfolding field32
  field32_lem = rw not_null

  pub set_field64_lem :
      (v : ℕ)
      → set_field64 p offset v s ≡ some (tt, record s { memory = store64 (p + offset) v s.memory })
  unfolding set_field64
  set_field64_lem v = rw not_null

  pub set_field32_lem :
      (v : ℕ)
      → set_field32 p offset v s ≡ some (tt, record s { memory = store32 (p + offset) v s.memory })
  unfolding set_field32
  set_field32_lem v = rw not_null

pub alloc-IsPlaced :
    (start : ℕ) (s : State) (c : ℕ) (layout format : List ℕ)
    → HasRoom start s (format_str_bytes format)
    → create_format_str (some (c ∷ layout)) ≡ ok format
    → required_bits format ≤ 54
    → (s' : State) × (alloc (c ∷ layout) s ≡ some (s.heap.alloc_front + header_size, s'))
      × IsPlaced start s
          (format_str_bytes format)
          (to_bit_vector format).bit_vector
          (s.heap.alloc_front + header_size)
          s'
unfolding alloc
alloc-IsPlaced start s c layout format room e bits =
    let (a, run, pointer, placed) = h_alloc_struct-IsPlaced start s c layout format room e bits in
    (a.state, rw (alloc, run, pointer) refl, placed)
