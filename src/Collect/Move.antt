-- ===== src/Collect/Move.antt =====
-- A root that points to an object that has not been moved.
use garbagecollector.Base.{
  ℕ, zero, suc, ◌+◌, ◌-◌, ◌%◌, ◌^◌, ◌≤◌, ◌<◌, ◌≡◌, ◌≢◌, refl, ap, ◌∙◌, ◌⊎◌, inl, inr, false, ◌==◌,
  ltb, List, ◌∷◌, some, arith,
}
use garbagecollector.Memory.{
  Memory, load64, store64, store_byte, copy_bytes, store64_outside, load64-store64,
  load64-store64_outside,
}
use garbagecollector.Memory.Sized.{load64_congr}
use garbagecollector.FormatStr.{ok, create_format_str, format_str_bytes}
use garbagecollector.BitVector.{
  to_bit_vector, required_bits, get_size_bits_field, bit_vector_to_format_string,
}
use garbagecollector.Header.{
  bit_vector, header_new, get_header, get_header_type, set_header_forward_address,
}
use garbagecollector.Header.Laws.{forward_word}
use garbagecollector.Heap.{space_size_bytes}
use garbagecollector.Heap.Shape.{IsHeap}
use garbagecollector.Alloc.{State, header_size}
use garbagecollector.Alloc.Fresh.{HasRoom, h_alloc_struct-IsPlaced}
use garbagecollector.Stack.{find_header_address_through_footer}
use garbagecollector.Collect.{move_into, move_object, garbage_collection}

copy_bytes_outside :
    (n dst src : ℕ) (m : Memory) (a : ℕ)
    → (a < dst) ⊎ (dst + n ≤ a)
    → copy_bytes dst src n m a ≡ m a
unfolding copy_bytes
copy_bytes_outside zero dst src m a out = refl
copy_bytes_outside (suc n) dst src m a out =
    copy_bytes_outside n (dst + 1) (src + 1) (store_byte dst (m src) m) a (ground (arith, out))
    ∙ ground (arith, out)

-- `memcpy` between places that do not meet.
copy_bytes_inside :
    (n dst src : ℕ) (m : Memory) (j : ℕ)
    → (src + n ≤ dst) ⊎ (dst + n ≤ src)
    → j < n
    → copy_bytes dst src n m (dst + j) ≡ m (src + j)
unfolding copy_bytes
copy_bytes_inside zero dst src m j apart low = absurd (omega (arith, low))
copy_bytes_inside (suc n) dst src m zero apart low =
    copy_bytes_outside n (dst + 1) (src + 1) (store_byte dst (m src) m) (dst + 0)
      (inl (omega arith))
    ∙ (let same : m src ≡ m (src + 0) = ap m (omega arith) in
        let at : dst + 0 ≡ dst = omega arith in ground (arith, same, at))
copy_bytes_inside (suc n) dst src m (suc j) apart low =
    ap (copy_bytes (dst + 1) (src + 1) n (store_byte dst (m src) m)) (omega arith)
    ∙ copy_bytes_inside n (dst + 1) (src + 1) (store_byte dst (m src) m) j (ground (arith, apart))
        (omega (arith, low))
    ∙ (let same : m (src + 1 + j) ≡ m (src + suc j) = ap m (omega arith) in
        ground (arith, apart, low, same))

-- What a moved object leaves: the root points to the data of the new object, which is the old data; the
-- old header forwards to the new one, which is that of the format string; the front is behind the new
-- object.
pub record IsMoved (start : ℕ) (s : State) (root header new word : ℕ) (format : List ℕ) (s' : State)
    : Type 0 where
  pub root_eq : load64 root s'.memory ≡ new
  pub same_data :
      (j : ℕ)
      → (format_str_bytes format ≤ j) ⊎ (s'.memory (new + j) ≡ s.memory (header + header_size + j))
  pub forwards :
      load64 header s'.memory
      ≡ (set_header_forward_address (header_new word) (new - header_size)).data_word
  pub new_header : load64 (new - header_size) s'.memory ≡ (to_bit_vector format).bit_vector
  pub front_eq : s'.heap.alloc_front ≡ new + format_str_bytes format + header_size
  pub shape : IsHeap start s'.heap

module _ (start : ℕ) (s : State) (root header word c : ℕ) (layout : List ℕ) where
  abbrev format : List ℕ
  format = c ∷ layout

  abbrev size : ℕ
  size = format_str_bytes format

  abbrev new : ℕ
  new = s.heap.alloc_front + header_size

  -- If a root is not NULL, its word is at least 0xFFF and points behind the header that the search
  -- finds for it, the header is a bit vector whose format string is read back and expands to
  -- itself, with at most 54 layout bits and the size in the header, the object with its footer lies
  -- below the front of a heap of the right shape with room for it there, and the root lies apart
  -- from the old object and the new one, then `garbage_collection` moves the object: the root
  -- points to the data of a new object behind the front, whose bytes are those of the old object
  -- and whose header is that of the format string; the old header forwards to the new one; the
  -- front is behind the new object, and the heap keeps its shape.
  pub garbage_collection-IsMoved :
      root ≢ 0
      → 0xFFF ≤ load64 root s.memory
      → load64 root s.memory ≡ header + header_size
      → find_header_address_through_footer
          (load64 root s.memory)
          (load64 root s.memory + space_size_bytes)
          s.memory
        ≡ some header
      → load64 header s.memory ≡ word
      → get_header_type (header_new word) ≡ bit_vector
      → bit_vector_to_format_string word ≡ ok format
      → get_size_bits_field word ≡ size
      → create_format_str (some format) ≡ ok format
      → required_bits format ≤ 54
      → HasRoom start s size
      → new + size < 2 ^ 64
      → header + header_size + size + header_size ≤ s.heap.alloc_front
      → (root + 8 ≤ header)
        ⊎ ((new + size + header_size ≤ root)
            ⊎ ((header + header_size + size ≤ root) × (root + 8 ≤ s.heap.alloc_front)))
      → (s' : State) × (garbage_collection s root ≡ some s')
        × IsMoved start s root header new word format s'
  unfolding garbage_collection move_object move_into get_header header_new
  garbage_collection-IsMoved real large at found is_word type string bytes expands bits room fits
        below apart =
      let e₁ : (root == 0) ≡ false = ground (arith, real) in
      let e₂ : ltb (load64 root s.memory) 0xFFF ≡ false = ground (arith, large) in
      let (a, run, pointer, placed) =
        h_alloc_struct-IsPlaced start s c layout format room expands bits in
      let m = a.state.memory in
      let kept = λ (p : ℕ) (out : (p + 8 ≤ s.heap.alloc_front) ⊎ (new + size + header_size ≤ p)).
        load64_congr p m s.memory (λ b low high. ground (arith, out, placed.frame b)) in
      let root_out : (root + 8 ≤ s.heap.alloc_front) ⊎ (new + size + header_size ≤ root) =
        ground (arith, apart, below) in
      let old : load64 root m ≡ header + header_size = kept root root_out ∙ at in
      let old_word : load64 header m ≡ word = kept header (inl (omega (arith, below))) ∙ is_word in
      let m₁ = copy_bytes new (header + header_size) size m in
      let outside = λ (p : ℕ) (out : (p + 8 ≤ new) ⊎ (new + size ≤ p)).
        load64_congr p m₁ m (λ b low high.
          copy_bytes_outside size new (header + header_size) m b (ground (arith, out))) in
      let word₁ : load64 header m₁ ≡ word =
        outside header (inl (omega (arith, below))) ∙ old_word in
      let front = new - header_size in
      let forward = (set_header_forward_address (header_new word) front).data_word in
      let forward_small : forward < 2 ^ 64 =
        omega (arith, forward_word (header_new word) front (omega (arith, fits))) in
      let m₂ = store64 header forward m₁ in
      let m₃ = store64 root new m₂ in
      let e₃ : (new == load64 root m) ≡ false = ground (arith, old, below) in
      let e₄ : (load64 root s.memory + 2 ^ 64 - header) % 2 ^ 64 ≡ 8 = omega (arith, at) in
      let e₅ : (front + 8) % 2 ^ 64 ≡ new = omega (arith, fits) in
      (
        record a.state { memory = m₃ },
        rw
            (
              garbage_collection, e₁, e₂, found, is_word, type, move_object, is_word, string, run,
              pointer, move_into, e₃, old_word, bytes, old, word₁, e₄, e₅,
            )
            refl,
        record {
          root_eq = load64-store64 root new m₂ (omega (arith, fits));
          same_data = λ j.
              let copied : (size ≤ j) ⊎ (m₁ (new + j) ≡ m (header + header_size + j)) = ground (
                arith,
                copy_bytes_inside size new (header + header_size) m j (inl (omega (arith, below))),
              ) in
              ground (
                arith,
                copied,
                root_out,
                below,
                store64_outside root new m₂ (new + j),
                store64_outside header forward m₁ (new + j),
                placed.frame (header + header_size + j),
              );
          forwards =
              load64-store64_outside root new m₂ header (ground (arith, apart, below))
              ∙ load64-store64 header forward m₁ forward_small;
          new_header =
              load64-store64_outside root new m₂ front (ground (arith, root_out))
              ∙ load64-store64_outside header forward m₁ front (inr (omega (arith, below)))
              ∙ outside front (inl (omega arith))
              ∙ placed.header;
          front_eq = placed.front_eq;
          shape = placed.shape;
        },
      )
