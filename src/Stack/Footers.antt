-- ===== src/Stack/Footers.antt =====
-- The search for an object's header through its footer.
use garbagecollector.Base.{
  ℕ, zero, suc, ◌+◌, ◌-◌, ◌*◌, ◌/◌, ◌%◌, ◌^◌, ◌≤◌, ◌<◌, ◌≡◌, ap, ◌∙◌, sym, true, false, some, arith,
}
use garbagecollector.Memory.{Memory, load64, load_bytes_congr}
use garbagecollector.Footer.{create_footer, confirm_tag}
use garbagecollector.Footer.Laws.{
  get_size_bits_field-create_footer, confirm_tag_iff, create_footer-lt,
}
use garbagecollector.Heap.{space_size_bytes}
use garbagecollector.Alloc.{State, header_size}
use garbagecollector.Alloc.Place.{IsPlaced}
use garbagecollector.Stack.{find_footer, find_header_address_through_footer}

-- The first footer on the way decides.
find_footer_first :
    (k left ptr size : ℕ) (memory : Memory)
    → ((i : ℕ) → i < k → confirm_tag (load64 (ptr + 8 * i) memory) ≡ false)
    → load64 (ptr + 8 * k) memory ≡ create_footer size
    → size < 256
    → k < left
    → find_footer left ptr memory ≡ some ((ptr + 8 * k + 2 ^ 64 - (size + header_size)) % 2 ^ 64)
unfolding find_footer
find_footer_first k zero ptr size memory clear here small lt = absurd (omega arith)
find_footer_first zero (suc left) ptr size memory clear here small lt =
    let at : load64 ptr memory ≡ create_footer size =
      ap (λ (t : ℕ). load64 t memory) (omega arith) ∙ here in
    let tag : confirm_tag (create_footer size) ≡ true =
      (confirm_tag_iff (create_footer size) (create_footer-lt size small)).1
        (ap create_footer (sym (get_size_bits_field-create_footer size small))) in
    rw (find_footer, at, tag, get_size_bits_field-create_footer size small) (ap some (omega arith))
find_footer_first (suc k) (suc left) ptr size memory clear here small lt =
    let at : ptr + 8 * 0 ≡ ptr = omega arith in
    let no_tag : confirm_tag (load64 ptr memory) ≡ false =
      ap (λ (t : ℕ). confirm_tag (load64 t memory)) (sym at) ∙ clear 0 (omega arith) in
    rw (find_footer, no_tag)
      (find_footer_first k left (ptr + 8) size memory
          (λ i lt.
            ap (λ (t : ℕ). confirm_tag (load64 t memory)) (omega arith)
            ∙ clear (suc i) (omega arith))
          (ap (λ (t : ℕ). load64 t memory) (omega arith) ∙ here) small (omega arith)
        ∙ ap some (omega arith))

-- The data of a placed object is what was there before.
pub load64-IsPlaced :
    (start : ℕ) (s s' : State) (size bit_vec p a : ℕ)
    → IsPlaced start s size bit_vec p s'
    → p ≤ a
    → a + 8 ≤ p + size
    → load64 a s'.memory ≡ load64 a s.memory
unfolding load64
load64-IsPlaced start s s' size bit_vec p a object low high =
    load_bytes_congr 8 a s'.memory s.memory (λ b lo hi. ground (arith, object.frame b))

-- From a word of a placed object whose size is a number of words and below 256, at an address
-- below 2 ^ 64, the search over one space finds the header of the object, if no word of the data
-- from there on is a footer.
pub find_header_address_through_footer-IsPlaced :
    (start : ℕ) (s s' : State) (words bit_vec p i : ℕ)
    → IsPlaced start s (8 * words) bit_vec p s'
    → 8 * words < 256
    → p < 2 ^ 64
    → i ≤ words
    → ((k : ℕ) → k < words - i → confirm_tag (load64 (p + 8 * i + 8 * k) s'.memory) ≡ false)
    → find_header_address_through_footer (p + 8 * i) (p + 8 * i + space_size_bytes) s'.memory
      ≡ some (p - header_size)
unfolding find_header_address_through_footer
find_header_address_through_footer-IsPlaced start s s' words bit_vec p i object small low le clear =
    find_footer_first (words - i) ((p + 8 * i + space_size_bytes - (p + 8 * i) + 7) / 8) (p + 8 * i)
      (8 * words) s'.memory clear (ap (λ (t : ℕ). load64 t s'.memory) (omega arith) ∙ object.footer)
      small (omega arith)
    ∙ ap some (omega (arith, object.inside_low))
