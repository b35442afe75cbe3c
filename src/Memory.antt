-- ===== src/Memory.antt =====
-- The memory of the process, byte by byte, and the 64-bit reads and writes of the collector, which
-- are little-endian (x86-64).
pub mod Sized
use native.Mathlib.Nat.{pow-suc, div-div-eq-div-mul, div-add-mod}
use garbagecollector.Base.{
  ℕ, zero, suc, ◌+◌, ◌*◌, ◌/◌, ◌%◌, ◌^◌, ◌≤◌, ◌<◌, ◌≡◌, refl, ap, ◌∙◌, ◌⊎◌, ◌==◌, if◌then◌else◌,
  arith,
}

abbrev pub Memory : Type 0
Memory = ℕ → ℕ

abbrev pub store_byte : ℕ → ℕ → Memory → Memory
store_byte address byte memory a = if a == address then byte else memory a

-- The `n` low bytes of `word`, from `address` on.
unfoldable pub store_bytes : ℕ → ℕ → ℕ → Memory → Memory
store_bytes zero address word memory = memory
store_bytes (suc n) address word memory =
    store_byte address (word % 256) (store_bytes n (address + 1) (word / 256) memory)

unfoldable pub load_bytes : ℕ → ℕ → Memory → ℕ
load_bytes zero address memory = 0
load_bytes (suc n) address memory = memory address + 256 * load_bytes n (address + 1) memory

-- `*(uint64_t *)address = word` and `*(uint64_t *)address`
unfoldable pub store64 : ℕ → ℕ → Memory → Memory
store64 address word memory = store_bytes 8 address word memory

unfoldable pub load64 : ℕ → Memory → ℕ
load64 address memory = load_bytes 8 address memory

-- `memcpy(dst, src, n)`
unfoldable pub copy_bytes : ℕ → ℕ → ℕ → Memory → Memory
copy_bytes dst src zero memory = memory
copy_bytes dst src (suc n) memory =
    copy_bytes (dst + 1) (src + 1) n (store_byte dst (memory src) memory)

-- A write changes only its own bytes.
pub store_bytes_outside :
    (n address word : ℕ) (memory : Memory) (a : ℕ)
    → (a < address) ⊎ (address + n ≤ a)
    → store_bytes n address word memory a ≡ memory a
unfolding store_bytes
store_bytes_outside zero address word memory a h = refl
store_bytes_outside (suc n) address word memory a h =
    ground (arith, store_bytes_outside n (address + 1) (word / 256) memory a)

-- A read depends only on its own bytes.
pub load_bytes_congr :
    (n address : ℕ) (m m' : Memory)
    → ((a : ℕ) → address ≤ a → a < address + n → m a ≡ m' a)
    → load_bytes n address m ≡ load_bytes n address m'
unfolding load_bytes
load_bytes_congr zero address m m' h = refl
load_bytes_congr (suc n) address m m' h = omega (
  arith,
  h address (omega arith) (omega arith),
  load_bytes_congr n (address + 1) m m' (λ a lo hi. h a (omega arith) (omega arith)),
)

mod_byte : (n x : ℕ) → x % 256 ^ suc n ≡ x % 256 + 256 * (x / 256 % 256 ^ n)
mod_byte n x =
    let p = 256 ^ n in
    let size : 256 ^ suc n ≡ 256 * p = omega (arith, pow-suc 256 n) in
    let quotient : x / 256 ^ suc n ≡ x / 256 / p = rw (size, ← div-div-eq-div-mul x 256 p) refl in
    omega (
      arith,
      div-add-mod x (256 ^ suc n),
      div-add-mod (x / 256) p,
      ap (λ (t : ℕ). 256 ^ suc n * t) quotient,
      ap (λ (t : ℕ). t * (x / 256 / p)) size,
    )

pub load_bytes-store_bytes :
    (n address word : ℕ) (memory : Memory)
    → load_bytes n address (store_bytes n address word memory) ≡ word % 256 ^ n
unfolding load_bytes store_bytes
load_bytes-store_bytes zero address word memory = omega arith
load_bytes-store_bytes (suc n) address word memory =
    let rest = store_bytes n (address + 1) (word / 256) memory in
    let low = word % 256 in
    let here : store_byte address low rest address ≡ low = ground arith in
    let there : load_bytes n (address + 1) (store_byte address low rest) ≡ word / 256 % 256 ^ n =
      load_bytes_congr n (address + 1) (store_byte address low rest) rest (λ a lo hi. ground arith)
      ∙ load_bytes-store_bytes n (address + 1) (word / 256) memory in
    omega (arith, here, there, mod_byte n word)

-- A word comes back from where it was written.
pub load64-store64 :
    (address word : ℕ) (memory : Memory)
    → word < 2 ^ 64
    → load64 address (store64 address word memory) ≡ word
unfolding load64 store64
load64-store64 address word memory small =
    load_bytes-store_bytes 8 address word memory ∙ omega arith

pub store64_outside :
    (address word : ℕ) (memory : Memory) (a : ℕ)
    → (a < address) ⊎ (address + 8 ≤ a)
    → store64 address word memory a ≡ memory a
unfolding store64
store64_outside address word memory a h = store_bytes_outside 8 address word memory a h

-- Words that do not overlap are independent.
pub load64-store64_outside :
    (address word : ℕ) (memory : Memory) (a : ℕ)
    → (a + 8 ≤ address) ⊎ (address + 8 ≤ a)
    → load64 a (store64 address word memory) ≡ load64 a memory
unfolding load64
load64-store64_outside address word memory a h =
    load_bytes_congr 8 a (store64 address word memory) memory
      (λ b lo hi. store64_outside address word memory b (ground arith))
