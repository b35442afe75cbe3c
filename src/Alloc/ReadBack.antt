-- ===== src/Alloc/ReadBack.antt =====
-- What the collector reads from the header of an object that `h_alloc_struct` has placed.
use garbagecollector.Base.{
  some_inj, ℕ, ◌-◌, ◌≤◌, ◌≡◌, ap, sym, ◌∙◌, inl, inr, List, ◌∷◌, Option, none, some, arith,
}
use garbagecollector.Memory.{load64}
use garbagecollector.FormatStr.{ok, create_format_str, format_str_bytes}
use garbagecollector.FormatStr.Fields.{interpreted_format_str-fields, ok_inj}
use garbagecollector.BitVector.{
  to_bit_vector, required_bits, get_size_bits_field, bit_vector_to_format_string,
}
use garbagecollector.BitVector.Encode.{get_size_bits_field-to_bit_vector}
use garbagecollector.BitVector.RoundTrip.{normalise, bit_vector_to_format_string-to_bit_vector}
use garbagecollector.Heap.Shape.{IsHeap}
use garbagecollector.Alloc.{State, Allocation, header_size, h_alloc_struct}
use garbagecollector.Alloc.Struct.{h_alloc_struct_lem}

-- The header word before a pointer that `h_alloc_struct` gave for a format string.
header_word :
    (start : ℕ) (s : State) (layout : Option (List ℕ)) (format : List ℕ) (a : Allocation) (p : ℕ)
    → IsHeap start s.heap
    → create_format_str layout ≡ ok format
    → h_alloc_struct layout s ≡ some a
    → a.pointer ≡ some p
    → load64 (p - header_size) a.state.memory ≡ (to_bit_vector format).bit_vector
header_word start s layout format a p shape e run pointer =
    let (a', run', end) = h_alloc_struct_lem start s shape layout (λ q. ground (arith, e, q)) in
    let same : a' ≡ a = some_inj a' a (sym run' ∙ run) in
    elim end [
      | inl r ↦
          let clash : none ≡ some p =
            sym r.pointer_eq ∙ ap (λ (b : Allocation). b.pointer) same ∙ pointer in
          ground (arith, clash)
      | inr r ↦
          let at : r.address ≡ p =
            some_inj r.address p
              (sym r.pointer_eq ∙ ap (λ (b : Allocation). b.pointer) same ∙ pointer) in
          let for : r.format ≡ format = ok_inj r.format format (sym r.format_eq ∙ e) in
          ap (λ (b : Allocation). load64 (p - header_size) b.state.memory) (sym same)
          ∙ ap (λ (q : ℕ). load64 (q - header_size) a'.state.memory) (sym at)
          ∙ r.object.header
          ∙ ap (λ (f : List ℕ). (to_bit_vector f).bit_vector) for
    ]

-- On a heap of the right shape, from the header of an object that `h_alloc_struct` gave for a
-- format string that expands to a non-empty string of fields with at most 54 layout bits, the
-- collector reads the number of bytes of that string, and a format string with the same pointers
-- at the same offsets.
pub h_alloc_struct-read_back :
    (start : ℕ) (s : State) (layout : List ℕ) (c : ℕ) (format : List ℕ) (a : Allocation) (p : ℕ)
    → IsHeap start s.heap
    → create_format_str (some layout) ≡ ok (c ∷ format)
    → required_bits (c ∷ format) ≤ 54
    → h_alloc_struct (some layout) s ≡ some a
    → a.pointer ≡ some p
    → (get_size_bits_field (load64 (p - header_size) a.state.memory)
        ≡ format_str_bytes (c ∷ format))
      × (bit_vector_to_format_string (load64 (p - header_size) a.state.memory)
          ≡ ok (normalise (c ∷ format)))
unfolding create_format_str
h_alloc_struct-read_back start s layout c format a p shape e fits run pointer =
    let word = header_word start s (some layout) (c ∷ format) a p shape e run pointer in
    let fields = interpreted_format_str-fields layout (c ∷ format) e in
    (
      ap get_size_bits_field word ∙ get_size_bits_field-to_bit_vector (c ∷ format) fields fits,
      ap bit_vector_to_format_string word
          ∙ bit_vector_to_format_string-to_bit_vector c format fields fits,
    )
