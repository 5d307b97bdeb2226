-- ===== src/BitConverter.antt =====
-- UFT/BitConverter.hpp: byte order. Words are natural numbers below 2 ^ w; the host is
-- little-endian, so a word in memory is its bytes, lowest first. The signed instances of the
-- templates are not used by the program.
pub mod Order
mod Tests
use Prim.Native.Nat.{bit_and, bit_or}
use uft.Prelude.{ℕ, zero, suc, ◌+◌, ◌*◌, ◌/◌, ◌%◌, ◌^◌, Bool, List, [], ◌∷◌, ◌==◌, if◌then◌else◌}

-- The bytes of a word in memory, and the word that they hold.
unfoldable pub store : ℕ → ℕ → List ℕ
store zero v = []
store (suc n) v = (v % 256) ∷ store n (v / 256)

unfoldable pub load : List ℕ → ℕ
load [] = 0
load (b ∷ bs) = b + 256 * load bs

-- `v >> k`, and `v << k` in a word of w bits.
abbrev shr : ℕ → ℕ → ℕ
shr v k = v / 2 ^ k

abbrev shl : ℕ → ℕ → ℕ → ℕ
shl w v k = v * 2 ^ k % 2 ^ w

-- Flip_The_Bytes<T, 16>, which shifts in an int and casts back.
unfoldable flip16 : ℕ → ℕ
flip16 v = bit_or (shl 32 (bit_and v 0x00FF) 8) (shr (bit_and v 0xFF00) 8) % 2 ^ 16

unfoldable pub flip32 : ℕ → ℕ
flip32 v =
    bit_or
      (bit_or (bit_or (shr (bit_and v 0xFF000000) 24) (shr (bit_and v 0x00FF0000) 8))
        (shl 32 (bit_and v 0x0000FF00) 8))
      (shl 32 (bit_and v 0x000000FF) 24)

unfoldable pub flip64 : ℕ → ℕ
flip64 v =
    bit_or
      (bit_or
        (bit_or
          (bit_or
            (bit_or
              (bit_or
                (bit_or (shr (bit_and v 0xFF00000000000000) 56)
                  (shr (bit_and v 0x00FF000000000000) 40))
                (shr (bit_and v 0x0000FF0000000000) 24))
              (shr (bit_and v 0x000000FF00000000) 8))
            (shl 64 (bit_and v 0x00000000FF000000) 8))
          (shl 64 (bit_and v 0x0000000000FF0000) 24))
        (shl 64 (bit_and v 0x000000000000FF00) 40))
      (shl 64 (bit_and v 0x00000000000000FF) 56)

-- The source's test looks at a constant, not at memory.
unfoldable pub is_little_endian : Bool
is_little_endian = bit_and 0x00000001 0xFFFFFFFF == 0x00000001

-- HostToNetwork<T> and NetworkToHost<T> at std::uint32_t and std::uint64_t. At one byte (bool,
-- std::uint8_t, the enums over it) both return the value.
unfoldable pub host_to_network32 : ℕ → ℕ
unfolding is_little_endian flip32
host_to_network32 v = if is_little_endian then flip32 v else v

unfoldable pub host_to_network64 : ℕ → ℕ
unfolding is_little_endian flip64
host_to_network64 v = if is_little_endian then flip64 v else v

unfoldable pub network_to_host32 : ℕ → ℕ
unfolding is_little_endian flip32
network_to_host32 v = if is_little_endian then flip32 v else v

unfoldable pub network_to_host64 : ℕ → ℕ
unfolding is_little_endian flip64
network_to_host64 v = if is_little_endian then flip64 v else v
