-- ===== src/Memory/Sized.antt =====
-- 32-bit reads and writes, and reads beside writes of any size.
use garbagecollector.Base.{ℕ, ◌+◌, ◌^◌, ◌≤◌, ◌<◌, ◌≡◌, ◌⊎◌, ◌∙◌, arith}
use garbagecollector.Memory.{
  Memory, load_bytes, store_bytes, load64, store64, load_bytes_congr, store_bytes_outside,
  load_bytes-store_bytes,
}

-- `*(uint32_t *)address = word` and `*(uint32_t *)address`
unfoldable pub store32 : ℕ → ℕ → Memory → Memory
store32 address word memory = store_bytes 4 address word memory

unfoldable pub load32 : ℕ → Memory → ℕ
load32 address memory = load_bytes 4 address memory

pub load32-store32 :
    (address word : ℕ) (memory : Memory)
    → word < 2 ^ 32
    → load32 address (store32 address word memory) ≡ word
unfolding load32 store32
load32-store32 address word memory small =
    load_bytes-store_bytes 4 address word memory ∙ omega arith

-- A read of `n` bytes is not changed by a write of `m` bytes beside them.
load_bytes-store_bytes_outside :
    (n a m b word : ℕ) (memory : Memory)
    → (a + n ≤ b) ⊎ (b + m ≤ a)
    → load_bytes n a (store_bytes m b word memory) ≡ load_bytes n a memory
load_bytes-store_bytes_outside n a m b word memory apart =
    load_bytes_congr n a (store_bytes m b word memory) memory
      (λ c low high. store_bytes_outside m b word memory c (ground (arith, apart, low, high)))

module _ (a b word : ℕ) (memory : Memory) where
  pub load64-store32_outside :
      (a + 8 ≤ b) ⊎ (b + 4 ≤ a) → load64 a (store32 b word memory) ≡ load64 a memory
  unfolding load64 store32
  load64-store32_outside apart = load_bytes-store_bytes_outside 8 a 4 b word memory apart

  pub load32-store64_outside :
      (a + 4 ≤ b) ⊎ (b + 8 ≤ a) → load32 a (store64 b word memory) ≡ load32 a memory
  unfolding load32 store64
  load32-store64_outside apart = load_bytes-store_bytes_outside 4 a 8 b word memory apart

  pub load32-store32_outside :
      (a + 4 ≤ b) ⊎ (b + 4 ≤ a) → load32 a (store32 b word memory) ≡ load32 a memory
  unfolding load32 store32
  load32-store32_outside apart = load_bytes-store_bytes_outside 4 a 4 b word memory apart

  pub store32_outside : (a < b) ⊎ (b + 4 ≤ a) → store32 b word memory a ≡ memory a
  unfolding store32
  store32_outside apart = store_bytes_outside 4 b word memory a apart

pub load32_congr :
    (a : ℕ) (m m' : Memory) → ((b : ℕ) → a ≤ b → b < a + 4 → m b ≡ m' b) → load32 a m ≡ load32 a m'
unfolding load32
load32_congr a m m' same = load_bytes_congr 4 a m m' same

pub load64_congr :
    (a : ℕ) (m m' : Memory) → ((b : ℕ) → a ≤ b → b < a + 8 → m b ≡ m' b) → load64 a m ≡ load64 a m'
unfolding load64
load64_congr a m m' same = load_bytes_congr 8 a m m' same
