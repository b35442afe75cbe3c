-- ===== src/Demo/HashTable/Insert.antt =====
-- `insert` of a key that the table has, and of one that it does not have.
use garbagecollector.Base.{
  ℕ, ◌+◌, ◌*◌, ◌%◌, ◌^◌, ◌≤◌, ◌<◌, ◌≡◌, ◌≢◌, refl, ◌∙◌, ◌⊎◌, Bool, true, false, List, [], ◌∷◌, ◌++◌,
  some, All, All-map, arith,
}
use garbagecollector.Memory.{Memory, load64, store64, load64-store64, store64_outside}
use garbagecollector.Memory.Sized.{load32, load64_congr}
use garbagecollector.Alloc.{State}
use garbagecollector.Demo.{null}
use garbagecollector.Demo.Fields.{not_null, field64_lem, field32_lem, set_field64_lem}
use garbagecollector.Demo.HashTable.{
  buckets, size, capacity, load_factor, key, value, next, Functions, grow_if_loaded,
  ioopm_hash_table_insert,
}
use garbagecollector.Demo.HashTable.Chain.{Entry, Entries, previous_of, previous_of_lem, entry_lem}
use garbagecollector.Demo.HashTable.Bucket.{
  IsBucket, bucket_of_lem, bucket_at_lem, find_previous-found, has_this_key_lem,
}
use garbagecollector.Demo.HashTable.Lookup.{behind_previous_lem}

-- The 24 bytes of an entry do not meet those at `b` of length `n`.
abbrev pub Apart : ℕ → ℕ → Entry → Type 0
Apart b n e = (e.address + 24 ≤ b) ⊎ (b + n ≤ e.address)

pub Entries-Agree :
    (m m' : Memory) (entries : List Entry) (p : ℕ)
    → Entries m p entries
    → All (λ e. (a : ℕ) → e.address ≤ a → a < e.address + 24 → m' a ≡ m a) entries
    → Entries m' p entries
Entries-Agree m m' [] p chain same = chain
Entries-Agree m m' (e ∷ rest) p (at, real, held, held_value, chain) (here, same) =
    let kept = λ (offset : ℕ) (low : offset + 8 ≤ 24).
      load64_congr (e.address + offset) m' m
        (λ a above below. here a (omega (arith, above)) (omega (arith, low, below))) in
    (
      at,
      real,
      kept key (omega arith) ∙ held,
      kept value (omega arith) ∙ held_value,
      rw (kept next (omega arith))
          (Entries-Agree m m' rest (load64 (e.address + next) m) chain same),
    )

-- The value of one entry is overwritten.
Entries-store :
    (m : Memory) (v : ℕ) (xs : List Entry) (e : Entry) (ys : List Entry) (p : ℕ)
    → v < 2 ^ 64
    → Entries m p (xs ++ e ∷ ys)
    → All (Apart e.address 24) xs
    → All (Apart e.address 24) ys
    → Entries (store64 (e.address + value) v m) p (xs ++ record e { its_value = v } ∷ ys)
Entries-store m v [] e ys p small (at, real, held, _, chain) before behind =
    let m' = store64 (e.address + value) v m in
    (
      at,
      real,
      load64_congr (e.address + key) m' m
            (λ a low high. ground (arith, store64_outside (e.address + value) v m a))
          ∙ held,
      load64-store64 (e.address + value) v m small,
      rw
          (load64_congr (e.address + next) m' m
            (λ a low high. ground (arith, store64_outside (e.address + value) v m a)))
          (Entries-Agree m m' ys (load64 (e.address + next) m) chain (
            All-map (Apart e.address 24)
              (λ d. (a : ℕ) → d.address ≤ a → a < d.address + 24 → m' a ≡ m a) ys
              (λ d h a low high. ground (arith, h, store64_outside (e.address + value) v m a))
              behind)),
    )
Entries-store m v (d ∷ xs) e ys p small (at, real, held, held_value, chain) (h, before) behind =
    let m' = store64 (e.address + value) v m in
    (
      at,
      real,
      load64_congr (d.address + key) m' m
            (λ a low high. ground (arith, h, store64_outside (e.address + value) v m a))
          ∙ held,
      load64_congr (d.address + value) m' m
            (λ a low high. ground (arith, h, store64_outside (e.address + value) v m a))
          ∙ held_value,
      rw
          (load64_congr (d.address + next) m' m
            (λ a low high. ground (arith, h, store64_outside (e.address + value) v m a)))
          (Entries-store m v xs e ys (load64 (d.address + next) m) small chain before behind),
    )

module _ (f : Functions) (s : State) (ht k b : ℕ) (same_key : ℕ → ℕ → Bool)
    (light : f.is_loaded
        ((load64 (ht + size) s.memory + 1) % 2 ^ 64)
        (load64 (ht + capacity) s.memory)
        (load32 (ht + load_factor) s.memory)
      ≡ false) where
  pub grow_if_loaded_lem : ht ≢ 0 → grow_if_loaded f ht s ≡ some (tt, s)
  unfolding grow_if_loaded
  grow_if_loaded_lem real =
      rw
        (
          grow_if_loaded,
          field64_lem ht size s real,
          field64_lem ht capacity s real,
          field32_lem ht load_factor s real,
          light,
        )
        refl

  -- For a table that is not loaded and whose functions do not change the state, where an entry of
  -- the bucket has the key and is apart from the others, `ioopm_hash_table_insert` of a word ends:
  -- the first entry with the key has the new value, the bucket is otherwise as before, and no byte
  -- but those of that value changes.
  pub insert-update :
      (v : ℕ) (xs : List Entry) (e : Entry) (ys : List Entry)
      → IsBucket f s ht k b same_key (xs ++ e ∷ ys)
      → All (λ d. same_key d.its_key k ≡ false) xs
      → same_key e.its_key k ≡ true
      → v < 2 ^ 64
      → All (Apart e.address 24) xs
      → All (Apart e.address 24) ys
      → (s' : State) × (ioopm_hash_table_insert f ht k v s ≡ some (tt, s'))
        × Entries s'.memory
            (load64 (load64 (ht + buckets) s.memory + 8 * b + 0) s.memory)
            (xs ++ record e { its_value = v } ∷ ys)
        × ((a : ℕ) → (s'.memory a ≡ s.memory a) ⊎ ((e.address + 8 ≤ a) × (a < e.address + 16)))
  unfolding ioopm_hash_table_insert
  insert-update v [] e ys is others here small before behind =
      let entries = e ∷ ys in
      let (at, real, held, _, _) = is.chain in
      (
        record s { memory = store64 (e.address + value) v s.memory },
        rw
            (
              ioopm_hash_table_insert,
              grow_if_loaded_lem is.real,
              bucket_of_lem f s ht k b same_key entries is,
              find_previous-found f s ht k b same_key entries is [] e ys refl others here,
              bucket_at_lem f s ht k b same_key entries is,
              at,
              not_null e.address next s real,
              has_this_key_lem f s ht k b same_key entries is e.address e.its_key real held,
              here,
              set_field64_lem e.address value s real v,
            )
            refl,
        Entries-store s.memory v [] e ys
            (load64 (load64 (ht + buckets) s.memory + 8 * b + 0) s.memory) small is.chain before
            behind,
        λ a. ground (arith, store64_outside (e.address + value) v s.memory a),
      )
  insert-update v (d ∷ xs) e ys is others here small before behind =
      let entries = (d ∷ xs) ++ e ∷ ys in
      let at_bucket = load64 (ht + buckets) s.memory + 8 * b in
      let prev = previous_of null at_bucket (d ∷ xs) in
      let (linked, leads, prev_real) =
        previous_of_lem s.memory xs d e ys null at_bucket is.chain is.bucket_real in
      let (real, held, held_value) =
        entry_lem s.memory (load64 (at_bucket + 0) s.memory) (d ∷ xs) e ys is.chain in
      (
        record s { memory = store64 (e.address + value) v s.memory },
        rw
            (
              ioopm_hash_table_insert,
              grow_if_loaded_lem is.real,
              bucket_of_lem f s ht k b same_key entries is,
              find_previous-found f s ht k b same_key entries is (d ∷ xs) e ys refl others here,
              not_null prev 0 s prev_real,
              behind_previous_lem prev s prev_real linked,
              leads,
              not_null e.address next s real,
              has_this_key_lem f s ht k b same_key entries is e.address e.its_key real held,
              here,
              set_field64_lem e.address value s real v,
            )
            refl,
        Entries-store s.memory v (d ∷ xs) e ys (load64 (at_bucket + 0) s.memory) small is.chain
            before behind,
        λ a. ground (arith, store64_outside (e.address + value) v s.memory a),
      )
