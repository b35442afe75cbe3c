-- ===== src/Demo/HashTable/InsertNew.antt =====
-- `insert` of a key that the table does not have.
use mathlib.Core.Path.{subst}
use garbagecollector.Base.{
  ℕ, ◌+◌, ◌*◌, ◌%◌, ◌^◌, ◌≤◌, ◌<◌, ◌≡◌, ◌≢◌, refl, sym, ◌∙◌, ◌⊎◌, inl, Bool, false, List, [], ◌∷◌,
  some, All, All-map_two, arith, ◌==◌, if◌then◌else◌,
}
use garbagecollector.Memory.{
  load64, store64, load64-store64, store64_outside, load64-store64_outside,
}
use garbagecollector.Memory.Sized.{load32, load64_congr}
use garbagecollector.FormatStr.{
  ok, create_format_str, format_str_bytes, isdigit, is_layout_char, interpreted_format_str,
  interpret, expanded_length, expanded_str, write_buffer, next_count, size_of_int, count_rounds,
}
use garbagecollector.Utils.{isspace, trim_whitespace, trim_end, skip_spaces, last_kept}
use garbagecollector.BitVector.{required_bits}
use garbagecollector.Alloc.{State, header_size}
use garbagecollector.Alloc.Fresh.{HasRoom}
use garbagecollector.Demo.{pure, null}
use garbagecollector.Demo.Fields.{not_null, field64_lem, set_field64_lem, alloc-IsPlaced}
use garbagecollector.Demo.HashTable.{
  buckets, size, capacity, load_factor, key, value, next, entry_fs, Functions, bucket_address,
  set_bucket, has_this_key, entry_create, add_entry, ioopm_hash_table_insert,
}
use garbagecollector.Demo.HashTable.Chain.{Entry, Entries}
use garbagecollector.Demo.HashTable.Bucket.{
  IsBucket, bucket_of_lem, bucket_at_lem, find_previous-missing, has_this_key_lem,
}
use garbagecollector.Demo.HashTable.Insert.{Apart, Entries-Agree, grow_if_loaded_lem}

entry_fields : List ℕ
entry_fields = b'*' ∷ b'*' ∷ b'*' ∷ []

entry_format : create_format_str (some entry_fs) ≡ ok entry_fields
unfolding entry_fields isspace trim_whitespace trim_end skip_spaces last_kept isdigit is_layout_char
    interpreted_format_str interpret expanded_length expanded_str write_buffer create_format_str
    next_count size_of_int count_rounds
entry_format = refl

entry_bytes : format_str_bytes entry_fields ≡ 24
unfolding entry_fields format_str_bytes
entry_bytes = refl

entry_bits : required_bits entry_fields ≤ 54
unfolding entry_fields required_bits
entry_bits = omega arith

-- A new entry at `p`: its fields, and all other memory below the old front as before.
pub record IsNewEntry (s : State) (k v behind p : ℕ) (s' : State) : Type 0 where
  pub its_key : load64 (p + key) s'.memory ≡ k
  pub its_value : load64 (p + value) s'.memory ≡ v
  pub its_next : load64 (p + next) s'.memory ≡ behind
  pub frame : (a : ℕ) → (s'.memory a ≡ s.memory a) ⊎ (s.heap.alloc_front ≤ a)

pub entry_create-IsNewEntry :
    (start : ℕ) (s : State) (k v behind : ℕ)
    → HasRoom start s 24
    → k < 2 ^ 64
    → v < 2 ^ 64
    → behind < 2 ^ 64
    → (s' : State) × (entry_create k v behind s ≡ some (s.heap.alloc_front + header_size, s'))
      × IsNewEntry s k v behind (s.heap.alloc_front + header_size) s'
unfolding entry_create
entry_create-IsNewEntry start s k v behind room k_small v_small behind_small =
    let p = s.heap.alloc_front + header_size in
    let real : p ≢ 0 = λ e. omega (arith, e) in
    let (s₁, run, placed) =
      alloc-IsPlaced start s b'3' (b'*' ∷ []) entry_fields
        (subst (HasRoom start s) (sym entry_bytes) room) entry_format entry_bits in
    let m₁ = store64 (p + key) k s₁.memory in
    let m₂ = store64 (p + value) v m₁ in
    let m₃ = store64 (p + next) behind m₂ in
    (
      record s₁ { memory = m₃ },
      rw
          (
            entry_create,
            run,
            set_field64_lem p key s₁ real k,
            set_field64_lem p value (record s₁ { memory = m₁ }) real v,
            set_field64_lem p next (record s₁ { memory = m₂ }) real behind,
          )
          refl,
      record {
        its_key =
            load64-store64_outside (p + next) behind m₂ (p + key) (inl (omega arith))
            ∙ load64-store64_outside (p + value) v m₁ (p + key) (inl (omega arith))
            ∙ load64-store64 (p + key) k s₁.memory k_small;
        its_value =
            load64-store64_outside (p + next) behind m₂ (p + value) (inl (omega arith))
            ∙ load64-store64 (p + value) v m₁ v_small;
        its_next = load64-store64 (p + next) behind m₂ behind_small;
        frame = λ a. ground (
          arith,
          store64_outside (p + next) behind m₂ a,
          store64_outside (p + value) v m₁ a,
          store64_outside (p + key) k s₁.memory a,
          placed.frame a,
        );
      },
    )

module _ (start : ℕ) (f : Functions) (s : State) (ht k b v : ℕ) (same_key : ℕ → ℕ → Bool)
    (entries : List Entry) (is : IsBucket f s ht k b same_key entries) where
  abbrev here : ℕ
  here = load64 (ht + buckets) s.memory + 8 * b

  abbrev front : ℕ
  front = load64 (here + 0) s.memory

  abbrev place : ℕ
  place = s.heap.alloc_front + header_size

  -- The test of the bucket's front finds nothing.
  no_key_at_front :
      All (λ e. same_key e.its_key k ≡ false) entries
      → (if front == null then pure false else has_this_key f ht front k) s ≡ some (false, s)
  no_key_at_front others = go entries is.chain others
    where
      go :
          (es : List Entry)
          → Entries s.memory front es
          → All (λ e. same_key e.its_key k ≡ false) es
          → (if front == null then pure false else has_this_key f ht front k) s ≡ some (false, s)
      go [] chain others = rw chain refl
      go (e ∷ es) (at, real, held, _, _) (other, others) =
          rw
            (
              at,
              not_null e.address next s real,
              has_this_key_lem f s ht k b same_key entries is e.address e.its_key real held,
              other,
            )
            refl

  front_small :
      (es : List Entry)
      → Entries s.memory front es
      → All (λ e. e.address + 24 ≤ s.heap.alloc_front) es
      → place < 2 ^ 64
      → front < 2 ^ 64
  front_small [] chain below small = omega (arith, chain)
  front_small (e ∷ es) chain below small = omega (arith, chain.0, below.0, small)

  -- For a table that is not loaded and whose functions do not change the state, with no entry for
  -- the key in its bucket, a word as key and as value, room for an entry behind the front, and with
  -- the table, the bucket and its entries below the front and apart from one another,
  -- `ioopm_hash_table_insert` ends: the bucket is the new entry before the old ones, the size is
  -- one more, and the array of buckets is the same.
  pub insert-new :
      f.is_loaded
          ((load64 (ht + size) s.memory + 1) % 2 ^ 64)
          (load64 (ht + capacity) s.memory)
          (load32 (ht + load_factor) s.memory)
        ≡ false
      → All (λ e. same_key e.its_key k ≡ false) entries
      → HasRoom start s 24
      → k < 2 ^ 64
      → v < 2 ^ 64
      → place < 2 ^ 64
      → ht + 56 ≤ s.heap.alloc_front
      → here + 8 ≤ s.heap.alloc_front
      → (here + 8 ≤ ht) ⊎ (ht + 56 ≤ here)
      → All (λ e. e.address + 24 ≤ s.heap.alloc_front) entries
      → All (Apart here 8) entries
      → All (Apart ht 56) entries
      → (s' : State) × (ioopm_hash_table_insert f ht k v s ≡ some (tt, s'))
        × Entries s'.memory
            (load64 (here + 0) s'.memory)
            (record { address = place; its_key = k; its_value = v } ∷ entries)
        × (load64 (ht + size) s'.memory ≡ (load64 (ht + size) s.memory + 1) % 2 ^ 64)
        × (load64 (ht + buckets) s'.memory ≡ load64 (ht + buckets) s.memory)
  unfolding ioopm_hash_table_insert add_entry set_bucket bucket_address
  insert-new light others room k_small v_small small ht_low here_low separate below apart apart_ht =
      let p_real : place ≢ 0 = λ e. omega (arith, e) in
      let (s₁, run, new) =
        entry_create-IsNewEntry start s k v front room k_small v_small
          (front_small entries is.chain below small) in
      let m₁ = s₁.memory in
      let m₂ = store64 (here + 0) place m₁ in
      let n = load64 (ht + size) s.memory in
      let m₃ = store64 (ht + size) ((n + 1) % 2 ^ 64) m₂ in
      let kept = λ (a : ℕ) (low : a + 8 ≤ s.heap.alloc_front).
        load64_congr a m₁ s.memory (λ c above under. ground (arith, new.frame c, low)) in
      let table₁ : load64 (ht + buckets) m₁ ≡ load64 (ht + buckets) s.memory =
        kept (ht + buckets) (omega (arith, ht_low)) in
      let count₂ : load64 (ht + size) m₂ ≡ n =
        load64-store64_outside (here + 0) place m₁ (ht + size) (ground (arith, separate))
        ∙ kept (ht + size) (omega (arith, ht_low)) in
      let later =
        λ (a : ℕ) (x : (a + 8 ≤ here) ⊎ (here + 8 ≤ a)) (y : (a + 8 ≤ ht + 8) ⊎ (ht + 16 ≤ a)).
          load64-store64_outside (ht + size) ((n + 1) % 2 ^ 64) m₂ a (ground (arith, y))
          ∙ load64-store64_outside (here + 0) place m₁ a (ground (arith, x)) in
      let linked : load64 (here + 0) m₃ ≡ place =
        load64-store64_outside (ht + size) ((n + 1) % 2 ^ 64) m₂ (here + 0)
          (ground (arith, separate))
        ∙ load64-store64 (here + 0) place m₁ small in
      let same : All (λ e. (a : ℕ) → e.address ≤ a → a < e.address + 24 → m₃ a ≡ s.memory a)
          entries =
        All-map_two (Apart here 8) (λ e. Apart ht 56 e × (e.address + 24 ≤ s.heap.alloc_front))
          (λ e. (a : ℕ) → e.address ≤ a → a < e.address + 24 → m₃ a ≡ s.memory a) entries
          (λ e h h' a low high. ground (
            arith,
            h,
            h'.0,
            h'.1,
            new.frame a,
            store64_outside (here + 0) place m₁ a,
            store64_outside (ht + size) ((n + 1) % 2 ^ 64) m₂ a,
          ))
          apart
          (All-map_two (Apart ht 56) (λ e. e.address + 24 ≤ s.heap.alloc_front)
            (λ e. Apart ht 56 e × (e.address + 24 ≤ s.heap.alloc_front)) entries (λ e h h'. (h, h'))
            apart_ht below) in
      (
        record s₁ { memory = m₃ },
        rw
            (
              ioopm_hash_table_insert,
              grow_if_loaded_lem f s ht k b same_key light is.real,
              bucket_of_lem f s ht k b same_key entries is,
              find_previous-missing f s ht k b same_key entries is others,
              bucket_at_lem f s ht k b same_key entries is,
              no_key_at_front others,
              add_entry,
              run,
              set_bucket,
              bucket_address,
              field64_lem ht buckets s₁ is.real,
              table₁,
              set_field64_lem here 0 s₁ is.bucket_real place,
              field64_lem ht size (record s₁ { memory = m₂ }) is.real,
              count₂,
              set_field64_lem ht size (record s₁ { memory = m₂ }) is.real ((n + 1) % 2 ^ 64),
            )
            refl,
        (
          linked,
          p_real,
          later (place + key) (ground (arith, here_low)) (ground (arith, ht_low)) ∙ new.its_key,
          later (place + value) (ground (arith, here_low)) (ground (arith, ht_low)) ∙ new.its_value,
          rw
              (later (place + next) (ground (arith, here_low)) (ground (arith, ht_low))
                ∙ new.its_next)
              (Entries-Agree s.memory m₃ entries front is.chain same),
        ),
        load64-store64 (ht + size) ((n + 1) % 2 ^ 64) m₂ (omega arith),
        later (ht + buckets) (ground (arith, separate)) (inl (omega arith)) ∙ table₁,
      )
