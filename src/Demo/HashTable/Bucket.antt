-- ===== src/Demo/HashTable/Bucket.antt =====
-- A bucket of a table, and the search for a key in it.
use mathlib.Core.Path.{subst}
use garbagecollector.Base.{
  ℕ, ◌+◌, ◌*◌, ◌^◌, ◌<◌, ◌≡◌, ◌≢◌, refl, ap, ◌∙◌, Bool, true, false, List, ◌∷◌, ◌++◌, length,
  length-append, some, All, arith,
}
use garbagecollector.Memory.{load64}
use garbagecollector.Alloc.{State}
use garbagecollector.Demo.{null}
use garbagecollector.Demo.Fields.{not_null, field64_lem}
use garbagecollector.Demo.HashTable.{
  buckets, capacity, hash_function, cmp, key, Functions, chain_fuel, bucket_address, bucket_at,
  bucket_of, has_this_key, find_previous, find_previous_entry_for_key,
}
use garbagecollector.Demo.HashTable.Chain.{
  Entry, Entries, previous_of, search_chain-missing, search_chain-found,
}

-- The table's functions do not change the state: its function for keys decides `same_key`, and its hash
-- function gives the bucket `b` for the key `k`, which holds the entries.
pub record IsBucket (f : Functions) (s : State) (ht k b : ℕ) (same_key : ℕ → ℕ → Bool)
    (entries : List Entry) : Type 0 where
  pub real : ht ≢ 0
  pub pure_compare :
      (x y : ℕ) → f.compare (load64 (ht + cmp) s.memory) x y s ≡ some (same_key x y, s)
  pub hashed :
      f.hash (load64 (ht + hash_function) s.memory) k (load64 (ht + capacity) s.memory) s
      ≡ some (b, s)
  pub bucket_real : load64 (ht + buckets) s.memory + 8 * b ≢ 0
  pub chain :
      Entries s.memory (load64 (load64 (ht + buckets) s.memory + 8 * b + 0) s.memory) entries
  pub few : length entries < 2 ^ 64

module _ (f : Functions) (s : State) (ht k b : ℕ) (same_key : ℕ → ℕ → Bool) (entries : List Entry)
    (is : IsBucket f s ht k b same_key entries) where
  abbrev pub pointer : ℕ
  pointer = load64 (ht + buckets) s.memory + 8 * b

  pub bucket_of_lem : bucket_of f ht k s ≡ some (b, s)
  unfolding bucket_of
  bucket_of_lem =
      rw
        (
          bucket_of,
          field64_lem ht hash_function s is.real,
          field64_lem ht capacity s is.real,
          is.hashed,
        )
        refl

  pub bucket_at_lem : bucket_at ht b s ≡ some (load64 (pointer + 0) s.memory, s)
  unfolding bucket_at bucket_address
  bucket_at_lem =
      rw
        (
          bucket_at,
          bucket_address,
          field64_lem ht buckets s is.real,
          field64_lem pointer 0 s is.bucket_real,
        )
        refl

  pub find_previous_lem : find_previous f ht b k s ≡ find_previous_entry_for_key f pointer k ht s
  unfolding find_previous bucket_address
  find_previous_lem = rw (find_previous, bucket_address, field64_lem ht buckets s is.real) refl

  pub find_previous-missing :
      All (λ e. same_key e.its_key k ≡ false) entries → find_previous f ht b k s ≡ some (null, s)
  unfolding find_previous_entry_for_key
  find_previous-missing others =
      find_previous_lem
      ∙ rw (find_previous_entry_for_key, not_null pointer 0 s is.bucket_real)
          (search_chain-missing f s ht k is.real same_key is.pure_compare chain_fuel entries null
            pointer is.few is.bucket_real is.chain others)

  pub find_previous-found :
      (xs : List Entry) (e : Entry) (ys : List Entry)
      → entries ≡ xs ++ e ∷ ys
      → All (λ e. same_key e.its_key k ≡ false) xs
      → same_key e.its_key k ≡ true
      → find_previous f ht b k s ≡ some (previous_of null pointer xs, s)
  unfolding find_previous_entry_for_key
  find_previous-found xs e ys same others here =
      find_previous_lem
      ∙ rw (find_previous_entry_for_key, not_null pointer 0 s is.bucket_real)
          (search_chain-found f s ht k is.real same_key is.pure_compare chain_fuel xs e ys null
            pointer (omega (arith, is.few, ap length same, length-append xs (e ∷ ys)))
            is.bucket_real
            (subst (λ (t : List Entry). Entries s.memory (load64 (pointer + 0) s.memory) t) same
              is.chain)
            others here)

  pub has_this_key_lem :
      (p k' : ℕ)
      → p ≢ 0
      → load64 (p + key) s.memory ≡ k'
      → has_this_key f ht p k s ≡ some (same_key k' k, s)
  unfolding has_this_key
  has_this_key_lem p k' p_real held =
      rw
        (
          has_this_key,
          field64_lem ht cmp s is.real,
          field64_lem p key s p_real,
          held,
          is.pure_compare k' k,
        )
        refl
