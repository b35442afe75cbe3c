-- ===== src/Collect/Forward.antt =====
-- A root that points into an object that has been moved.
use garbagecollector.Base.{
  ℕ, zero, suc, ◌+◌, ◌-◌, ◌*◌, ◌/◌, ◌%◌, ◌^◌, ◌≤◌, ◌<◌, ◌≡◌, ◌≢◌, ap, ◌∙◌, sym, false, ◌==◌, ltb,
  if◌then◌else◌, some, arith,
}
use garbagecollector.Bits.{test_bit}
use garbagecollector.Word.{word_ext}
use garbagecollector.Memory.{load64, store64}
use garbagecollector.BitManip.{set_bit_at_index_from_lsb}
use garbagecollector.BitManip.Select.{
  test_bit-set_bit_at_index_from_lsb, set_bit_at_index_from_lsb-lt,
}
use garbagecollector.Header.{
  forwarding_address, header_new, get_header_type, set_header_forward_address,
}
use garbagecollector.Header.Laws.{forward_word, header_get_address-set_header_forward_address}
use garbagecollector.Heap.{space_size_bytes}
use garbagecollector.Alloc.{State}
use garbagecollector.Stack.{find_header_address_through_footer}
use garbagecollector.Collect.{follow_forward, garbage_collection}

even_bit : (x k : ℕ) → test_bit (x / 2 * 2) k ≡ (if k == 0 then false else test_bit x k)
unfolding test_bit
even_bit x zero = ground arith
even_bit x (suc k) =
    let e : x / 2 * 2 / 2 ≡ x / 2 = omega arith in ap (λ (t : ℕ). test_bit t k) e ∙ ground arith

clear_lowest : (x : ℕ) → x < 2 ^ 64 → set_bit_at_index_from_lsb x 0 false ≡ x / 2 * 2
clear_lowest x small =
    word_ext (set_bit_at_index_from_lsb x 0 false) (x / 2 * 2)
      (set_bit_at_index_from_lsb-lt x 0 false small) (omega arith)
      (λ k lt. test_bit-set_bit_at_index_from_lsb x 0 false k (omega arith) lt ∙ sym (even_bit x k))

clear_twice :
    (new : ℕ)
    → new < 2 ^ 64
    → new % 4 ≡ 0
    → set_bit_at_index_from_lsb (set_bit_at_index_from_lsb (new / 4 * 4 + 1) 0 false) 0 false ≡ new
clear_twice new small aligned =
    ap (λ (t : ℕ). set_bit_at_index_from_lsb t 0 false)
      (clear_lowest (new / 4 * 4 + 1) (omega arith) ∙ omega arith)
    ∙ clear_lowest new small
    ∙ omega arith

-- If the footer behind a root's word leads to a header that forwards to `new`, a multiple of 4, the
-- collection writes the address at the same distance from `new` into the root, and nothing else. The root
-- is not NULL, its word is at least 0xFFF and not below the header, and the new address is a word.
pub garbage_collection-forwarded :
    (s : State) (root header new word : ℕ)
    → root ≢ 0
    → 0xFFF ≤ load64 root s.memory
    → find_header_address_through_footer
        (load64 root s.memory)
        (load64 root s.memory + space_size_bytes)
        s.memory
      ≡ some header
    → load64 header s.memory ≡ (set_header_forward_address (header_new word) new).data_word
    → new % 4 ≡ 0
    → header ≤ load64 root s.memory
    → new + (load64 root s.memory - header) < 2 ^ 64
    → garbage_collection s root
      ≡ some (record s { memory = store64 root (new + (load64 root s.memory - header)) s.memory })
unfolding garbage_collection follow_forward header_new
garbage_collection-forwarded s root header new word real large found forwards aligned below fits =
    let old = load64 root s.memory in
    let small : new < 2 ^ 64 = omega (arith, fits) in
    let e₁ : (root == 0) ≡ false = ground (arith, real) in
    let e₂ : ltb old 0xFFF ≡ false = ground (arith, large) in
    let type : get_header_type (header_new (load64 header s.memory)) ≡ forwarding_address =
      ap (λ (t : ℕ). get_header_type (header_new t)) forwards
      ∙ (header_get_address-set_header_forward_address (header_new word) new small).0 in
    let address = clear_twice new small aligned in
    let value =
      ap (λ (t : ℕ). set_bit_at_index_from_lsb (set_bit_at_index_from_lsb t 0 false) 0 false)
        (forwards ∙ forward_word (header_new word) new small)
      ∙ address in
    rw (garbage_collection, e₁, e₂, found, type, follow_forward, value)
      (ap (λ (t : ℕ). some (record s { memory = store64 root t s.memory }))
        (omega (arith, below, fits)))
