-- ===== src/Demo/LinkedList/NewLink.antt =====
-- The link that `append`, `prepend` and an iterator's `insert` allocate.
use garbagecollector.Base.{ℕ, ◌+◌, ◌^◌, ◌≤◌, ◌<◌, ◌≡◌, refl, sym, ◌⊎◌, List, [], ◌∷◌, some, arith}
use mathlib.Core.Path.{subst}
use garbagecollector.Memory.{load64, store64, load64-store64, store64_outside}
use garbagecollector.Memory.Sized.{load64_congr}
use garbagecollector.FormatStr.{
  ok, create_format_str, format_str_bytes, isdigit, is_layout_char, interpreted_format_str,
  interpret, expanded_length, expanded_str, write_buffer, next_count, size_of_int, count_rounds,
}
use garbagecollector.Utils.{isspace, trim_whitespace, trim_end, skip_spaces, last_kept}
use garbagecollector.BitVector.{required_bits}
use garbagecollector.Heap.Shape.{IsHeap}
use garbagecollector.Alloc.{State, header_size}
use garbagecollector.Alloc.Fresh.{HasRoom}
use garbagecollector.Demo.Fields.{set_field64_lem, alloc-IsPlaced}
use garbagecollector.Demo.LinkedList.{value, next, link_fs, new_link}

two_pointers : List ℕ
two_pointers = b'*' ∷ b'*' ∷ []

link_format : create_format_str (some link_fs) ≡ ok two_pointers
unfolding two_pointers isspace trim_whitespace trim_end skip_spaces last_kept isdigit is_layout_char
    interpreted_format_str interpret expanded_length expanded_str write_buffer create_format_str
    next_count size_of_int count_rounds
link_format = refl

link_bytes : format_str_bytes two_pointers ≡ 16
unfolding two_pointers format_str_bytes
link_bytes = refl

link_bits : required_bits two_pointers ≤ 54
unfolding two_pointers required_bits
link_bits = omega arith

-- The new link at `p` holds `v`; the word behind it is what was there, and so is all memory but the
-- link and the two words around it. The front is behind them.
pub record IsNewLink (start : ℕ) (s : State) (v p : ℕ) (s' : State) : Type 0 where
  pub place : p ≡ s.heap.alloc_front + header_size
  pub holds : load64 (p + value) s'.memory ≡ v
  pub behind : load64 (p + next) s'.memory ≡ load64 (p + next) s.memory
  pub frame : (a : ℕ) → (s'.memory a ≡ s.memory a) ⊎ ((s.heap.alloc_front ≤ a) × (a < p + 24))
  pub front_eq : s'.heap.alloc_front ≡ p + 24
  pub used_eq : s'.heap.used_bytes ≡ s.heap.used_bytes + 56
  pub same_flags : s'.heap.space_is_active ≡ s.heap.space_is_active
  pub shape : IsHeap start s'.heap

pub new_link-IsNewLink :
    (start : ℕ) (s : State) (v : ℕ)
    → HasRoom start s 16
    → v < 2 ^ 64
    → (s' : State) × (new_link v s ≡ some (s.heap.alloc_front + header_size, s'))
      × IsNewLink start s v (s.heap.alloc_front + header_size) s'
unfolding new_link
new_link-IsNewLink start s v room small =
    let p = s.heap.alloc_front + header_size in
    let (s₁, run, placed) =
      alloc-IsPlaced start s b'2' (b'*' ∷ []) two_pointers
        (subst (HasRoom start s) (sym link_bytes) room) link_format link_bits in
    let memory = store64 (p + value) v s₁.memory in
    let behind : load64 (p + next) memory ≡ load64 (p + next) s.memory =
      load64_congr (p + next) memory s.memory (λ a low high.
        ground (arith, store64_outside (p + value) v s₁.memory a, placed.frame a, link_bytes)) in
    (
      record s₁ { memory = memory },
      rw (new_link, run, set_field64_lem p value s₁ (λ e. omega (arith, e)) v) refl,
      record {
        place = refl;
        holds = load64-store64 (p + value) v s₁.memory small;
        behind = behind;
        frame = λ a.
            ground (arith, store64_outside (p + value) v s₁.memory a, placed.frame a, link_bytes);
        front_eq = omega (arith, placed.front_eq, link_bytes);
        used_eq = omega (arith, placed.used_eq, link_bytes);
        same_flags = placed.same_flags;
        shape = placed.shape;
      },
    )
