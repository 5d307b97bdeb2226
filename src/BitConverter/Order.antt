-- ===== src/BitConverter/Order.antt =====
-- The shifts and masks of UFT/BitConverter.hpp as arithmetic, and what they do to memory.
use Prim.Native.Nat.{bit_and, bit_or}
use uft.Prelude.{
  ℕ, zero, suc, ◌+◌, ◌*◌, ◌/◌, ◌%◌, ◌^◌, ◌<◌, ◌≡◌, refl, ap, ◌∙◌, List, [], ◌∷◌, ◌++◌, arith,
  length, length-append,
}
use mathlib.Core.Path.{ap₂}
use native.Mathlib.Nat.{pow-suc}
use uft.Prelude.Bits.{bit_and_byte, bit_and_shifted, bit_or_fields}
use uft.BitConverter.{
  store, load, flip32, flip64, host_to_network32, host_to_network64, network_to_host32,
  network_to_host64,
}

-- Network order: the highest byte first.
unfoldable pub big_endian : ℕ → ℕ → List ℕ
big_endian zero v = []
big_endian (suc n) v = big_endian n (v / 256) ++ ((v % 256) ∷ [])

-- The k-th byte under its mask.
masked : (k v : ℕ) → bit_and v (0xFF * 2 ^ k) ≡ v / 2 ^ k % 256 * 2 ^ k
masked k v = bit_and_shifted k v 0xFF ∙ ap (λ (t : ℕ). t * 2 ^ k) (bit_and_byte (v / 2 ^ k))

joined :
    (k high : ℕ) {a b low : ℕ}
    → a ≡ low
    → b ≡ high * 2 ^ k
    → low < 2 ^ k
    → bit_or a b ≡ low + high * 2 ^ k
joined k high p q h = rw (p, q) (bit_or_fields k _ _ h)

-- The bytes of a 32-bit word in reverse.
pub flip32_bytes :
    (v : ℕ)
    → flip32 v
      ≡ v / 2 ^ 24 % 256 + v / 2 ^ 16 % 256 * 2 ^ 8 + v / 2 ^ 8 % 256 * 2 ^ 16 + v % 256 * 2 ^ 24
unfolding flip32
flip32_bytes v =
    joined 24 _
      (joined 16 _
        (joined 8 _ (omega (arith, masked 24 v)) (omega (arith, masked 16 v)) (omega arith))
        (omega (arith, masked 8 v)) (omega arith))
      (omega (arith, masked 0 v)) (omega arith)

-- The bytes of a 64-bit word in reverse.
pub flip64_bytes :
    (v : ℕ)
    → flip64 v
      ≡ v / 2 ^ 56 % 256
        + v / 2 ^ 48 % 256 * 2 ^ 8
        + v / 2 ^ 40 % 256 * 2 ^ 16
        + v / 2 ^ 32 % 256 * 2 ^ 24
        + v / 2 ^ 24 % 256 * 2 ^ 32
        + v / 2 ^ 16 % 256 * 2 ^ 40
        + v / 2 ^ 8 % 256 * 2 ^ 48
        + v % 256 * 2 ^ 56
unfolding flip64
flip64_bytes v =
    joined 56 _
      (joined 48 _
        (joined 40 _
          (joined 32 _
            (joined 24 _
              (joined 16 _
                (joined 8 _ (omega (arith, masked 56 v)) (omega (arith, masked 48 v)) (omega arith))
                (omega (arith, masked 40 v)) (omega arith))
              (omega (arith, masked 32 v)) (omega arith))
            (omega (arith, masked 24 v)) (omega arith))
          (omega (arith, masked 16 v)) (omega arith))
        (omega (arith, masked 8 v)) (omega arith))
      (omega (arith, masked 0 v)) (omega arith)

pub flip64-lt : (v : ℕ) → flip64 v < 2 ^ 64
flip64-lt v = omega (arith, flip64_bytes v)

pub flip32-flip32 : (v : ℕ) → v < 2 ^ 32 → flip32 (flip32 v) ≡ v
flip32-flip32 v h = omega (arith, flip32_bytes v, flip32_bytes (flip32 v))

pub flip64-flip64 : (v : ℕ) → v < 2 ^ 64 → flip64 (flip64 v) ≡ v
flip64-flip64 v h = omega (arith, flip64_bytes v, flip64_bytes (flip64 v))

pub load-store : (n v : ℕ) → v < 256 ^ n → load (store n v) ≡ v
unfolding load store
load-store zero v h = omega arith
load-store (suc n) v h = omega (arith, load-store n (v / 256) (omega (arith, pow-suc 256 n)))

pub length-store : (n v : ℕ) → length (store n v) ≡ n
unfolding store
length-store zero v = refl
length-store (suc n) v = ap suc (length-store n (v / 256))

same : {a b : ℕ} {xs ys : List ℕ} → a ≡ b → xs ≡ ys → ◌≡◌ {A = List ℕ} (a ∷ xs) (b ∷ ys)
same p q = ap₂ ◌∷◌ p q

-- A host-order word whose bytes were reversed stands in memory in network order.
pub store-flip64 : (v : ℕ) → store 8 (flip64 v) ≡ big_endian 8 v
unfolding store big_endian
store-flip64 v =
    let e = flip64_bytes v in
    same (omega arith) (
      same (omega arith) (
        same (omega arith) (
          same (omega arith) (
            same (omega arith)
              (same (omega arith) (same (omega arith) (same (omega arith) refl)))))))

pub store-flip32 : (v : ℕ) → store 4 (flip32 v) ≡ big_endian 4 v
unfolding store big_endian
store-flip32 v =
    let e = flip32_bytes v in
    same (omega arith) (same (omega arith) (same (omega arith) (same (omega arith) refl)))

pub store-host_to_network64 : (v : ℕ) → store 8 (host_to_network64 v) ≡ big_endian 8 v
unfolding host_to_network64
store-host_to_network64 = store-flip64

pub store-host_to_network32 : (v : ℕ) → store 4 (host_to_network32 v) ≡ big_endian 4 v
unfolding host_to_network32
store-host_to_network32 = store-flip32

-- A word below 2 ^ 64 stands in memory in network order after HostToNetwork, and NetworkToHost
-- reads it back from there.
pub network_order64 :
    (v : ℕ)
    → v < 2 ^ 64
    → (store 8 (host_to_network64 v) ≡ big_endian 8 v)
      × (network_to_host64 (load (big_endian 8 v)) ≡ v)
unfolding host_to_network64 network_to_host64
network_order64 v h = (
  store-flip64 v,
  rw (← store-flip64 v, load-store 8 (flip64 v) (flip64-lt v)) (flip64-flip64 v h),
)

-- A word below 2 ^ 32 stands in memory in network order after HostToNetwork, and NetworkToHost
-- reads it back from there.
pub network_order32 :
    (v : ℕ)
    → v < 2 ^ 32
    → (store 4 (host_to_network32 v) ≡ big_endian 4 v)
      × (network_to_host32 (load (big_endian 4 v)) ≡ v)
unfolding host_to_network32 network_to_host32
network_order32 v h = (
  store-flip32 v,
  rw (← store-flip32 v, load-store 4 (flip32 v) (omega (arith, flip32_bytes v)))
      (flip32-flip32 v h),
)

pub length-big_endian : (n v : ℕ) → length (big_endian n v) ≡ n
unfolding big_endian
length-big_endian zero v = refl
length-big_endian (suc n) v =
    omega (
      arith,
      length-append (big_endian n (v / 256)) ((v % 256) ∷ []),
      length-big_endian n (v / 256),
    )
