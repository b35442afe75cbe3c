-- ===== src/Demo/HashTable/Lookup.antt =====
-- `lookup`: the value of a key, from the bucket that its hash gives.
use mathlib.Core.Path.{subst}
use garbagecollector.Base.{
  ℕ, ◌+◌, ◌*◌, ◌≡◌, ◌≢◌, refl, ap, sym, ◌∙◌, inl, inr, Bool, true, false, List, [], ◌∷◌, ◌++◌, some,
  All,
}
use garbagecollector.Memory.{load64}
use garbagecollector.Alloc.{State}
use garbagecollector.Demo.{null}
use garbagecollector.Demo.Fields.{not_null, field64_lem}
use garbagecollector.Demo.HashTable.{
  value, next, Functions, behind_previous, lookup_behind, lookup_in, ioopm_hash_table_lookup,
}
use garbagecollector.Demo.HashTable.Chain.{
  Entry, value_of, split_at_key, value_of_missing, value_of_found, previous_of, previous_of_lem,
  entry_lem,
}
use garbagecollector.Demo.HashTable.Bucket.{
  IsBucket, bucket_of_lem, bucket_at_lem, find_previous-missing, find_previous-found,
  has_this_key_lem,
}

pub behind_previous_lem :
    (prev : ℕ) (s : State)
    → prev ≢ 0
    → load64 (prev + 0) s.memory ≢ 0
    → behind_previous prev s ≡ some (load64 (load64 (prev + 0) s.memory + next) s.memory, s)
unfolding behind_previous
behind_previous_lem prev s real real' =
    rw
      (
        behind_previous,
        field64_lem prev 0 s real,
        field64_lem (load64 (prev + 0) s.memory) next s real',
      )
      refl

module _ (f : Functions) (s : State) (ht k b : ℕ) (same_key : ℕ → ℕ → Bool) where
  abbrev at_bucket : ℕ
  at_bucket = load64 (ht + 0) s.memory + 8 * b

  lookup-missing :
      (entries : List Entry)
      → IsBucket f s ht k b same_key entries
      → All (λ e. same_key e.its_key k ≡ false) entries
      → ioopm_hash_table_lookup f ht k s ≡ some (0, s)
  unfolding ioopm_hash_table_lookup lookup_in
  lookup-missing [] is others =
      rw
        (
          ioopm_hash_table_lookup,
          bucket_of_lem f s ht k b same_key [] is,
          bucket_at_lem f s ht k b same_key [] is,
          is.chain,
        )
        refl
  lookup-missing (d ∷ rest) is others =
      let (at, real, held, _, _) = is.chain in
      rw
        (
          ioopm_hash_table_lookup,
          bucket_of_lem f s ht k b same_key (d ∷ rest) is,
          bucket_at_lem f s ht k b same_key (d ∷ rest) is,
          at,
          not_null d.address next s real,
          lookup_in,
          find_previous-missing f s ht k b same_key (d ∷ rest) is others,
          bucket_at_lem f s ht k b same_key (d ∷ rest) is,
          at,
          has_this_key_lem f s ht k b same_key (d ∷ rest) is d.address d.its_key real held,
          others.0,
        )
        refl

  lookup-found :
      (xs : List Entry) (e : Entry) (ys : List Entry)
      → IsBucket f s ht k b same_key (xs ++ e ∷ ys)
      → All (λ e. same_key e.its_key k ≡ false) xs
      → same_key e.its_key k ≡ true
      → ioopm_hash_table_lookup f ht k s ≡ some (e.its_value, s)
  unfolding ioopm_hash_table_lookup lookup_in lookup_behind
  lookup-found [] e ys is others here =
      let (at, real, held, held_value, _) = is.chain in
      let entries = e ∷ ys in
      rw
        (
          ioopm_hash_table_lookup,
          bucket_of_lem f s ht k b same_key entries is,
          bucket_at_lem f s ht k b same_key entries is,
          at,
          not_null e.address next s real,
          lookup_in,
          find_previous-found f s ht k b same_key entries is [] e ys refl others here,
          bucket_at_lem f s ht k b same_key entries is,
          at,
          has_this_key_lem f s ht k b same_key entries is e.address e.its_key real held,
          here,
          field64_lem e.address value s real,
          held_value,
        )
        refl
  lookup-found (d ∷ xs) e ys is others here =
      let entries = (d ∷ xs) ++ e ∷ ys in
      let (at, d_real, _, _, _) = is.chain in
      let prev = previous_of null at_bucket (d ∷ xs) in
      let (before, leads, prev_real) =
        previous_of_lem s.memory xs d e ys null at_bucket is.chain is.bucket_real in
      let (real, held, held_value) =
        entry_lem s.memory (load64 (at_bucket + 0) s.memory) (d ∷ xs) e ys is.chain in
      rw
        (
          ioopm_hash_table_lookup,
          bucket_of_lem f s ht k b same_key entries is,
          bucket_at_lem f s ht k b same_key entries is,
          at,
          not_null d.address next s d_real,
          lookup_in,
          find_previous-found f s ht k b same_key entries is (d ∷ xs) e ys refl others here,
          bucket_at_lem f s ht k b same_key entries is,
          not_null prev 0 s prev_real,
          lookup_behind,
          behind_previous_lem prev s prev_real before,
          leads,
          not_null e.address next s real,
          has_this_key_lem f s ht k b same_key entries is e.address e.its_key real held,
          here,
          field64_lem e.address value s real,
          held_value,
        )
        refl

  -- For a table whose functions do not change the state, and whose bucket for the key is a chain of
  -- entries that ends, `ioopm_hash_table_lookup` ends, changes nothing, and gives the value of the
  -- first entry with the key, or 0 if none has it.
  pub ioopm_hash_table_lookup_lem :
      (entries : List Entry)
      → IsBucket f s ht k b same_key entries
      → ioopm_hash_table_lookup f ht k s ≡ some (value_of (λ k'. same_key k' k) entries, s)
  ioopm_hash_table_lookup_lem entries is = elim (split_at_key (λ k'. same_key k' k) entries) [
    | inl others ↦
        lookup-missing entries is others
        ∙ ap (λ v. some (v, s)) (sym (value_of_missing (λ k'. same_key k' k) entries others))
    | inr (xs, e, ys, same, others, here) ↦
        lookup-found xs e ys (subst (λ (t : List Entry). IsBucket f s ht k b same_key t) same is)
          others here
        ∙ ap (λ v. some (v, s))
            (sym (
              ap (value_of (λ k'. same_key k' k)) same
              ∙ value_of_found (λ k'. same_key k' k) xs e ys others here))
  ]
