-- ===== src/Heap/Shape.antt =====
-- The shape of a heap that `h_init` makes and that allocation and collection keep.
use garbagecollector.Base.{
  ℕ, zero, suc, ◌+◌, ◌-◌, List, [], ◌∷◌, ◌*◌, ◌≤◌, ◌<◌, ◌≡◌, ap, ◌∙◌, false, some, get_elem?,
  length, All, arith,
}
use garbagecollector.Word.{IsWord}
use garbagecollector.Heap.{Heap, space_size_bytes}

-- The addresses of `n` spaces from the space `i` on.
unfoldable pub spaces_from : ℕ → ℕ → ℕ → List ℕ
spaces_from start i zero = []
spaces_from start i (suc n) = (start + i * space_size_bytes) ∷ spaces_from start (i + 1) n

-- The spaces lie one behind the other from `start` on, the map has a bit for each 16 bytes, the last
-- space is passive, and the front is inside the heap.
pub record IsHeap (start : ℕ) (h : Heap) : Type 0 where
  pub some_space : 1 ≤ h.number_of_spaces
  pub space_list : h.spaces ≡ spaces_from start 0 h.number_of_spaces
  pub size_eq : h.size ≡ h.number_of_spaces * space_size_bytes
  pub flags_length : length h.space_is_active ≡ h.number_of_spaces
  pub last_passive : get_elem? h.space_is_active (h.number_of_spaces - 1) ≡ some false
  pub map_length : length h.alloc_map ≡ 2 * h.number_of_spaces
  pub map_words : All IsWord h.alloc_map
  pub front_low : start ≤ h.alloc_front
  pub front_high : h.alloc_front < start + h.size

get_elem?-spaces_from :
    (start i n k : ℕ)
    → k < n
    → get_elem? (spaces_from start i n) k ≡ some (start + (i + k) * space_size_bytes)
unfolding spaces_from
get_elem?-spaces_from start i zero k lt = absurd (omega arith)
get_elem?-spaces_from start i (suc n) zero lt = ap some (omega arith)
get_elem?-spaces_from start i (suc n) (suc k) lt =
    get_elem?-spaces_from start (i + 1) n k (omega arith) ∙ ap some (omega arith)

module _ (start : ℕ) (h : Heap) (ok : IsHeap start h) where
  -- The address of a space.
  pub get_elem?-spaces :
      (k : ℕ) → k < h.number_of_spaces → get_elem? h.spaces k ≡ some (start + k * space_size_bytes)
  get_elem?-spaces k lt =
      rw ok.space_list
        (get_elem?-spaces_from start 0 h.number_of_spaces k lt ∙ ap some (omega arith))

  pub get_elem?-spaces_zero : get_elem? h.spaces 0 ≡ some start
  get_elem?-spaces_zero = get_elem?-spaces 0 (omega (arith, ok.some_space)) ∙ ap some (omega arith)
