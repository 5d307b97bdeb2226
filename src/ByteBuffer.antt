-- ===== src/ByteBuffer.antt =====
-- UFT/ByteBuffer.hpp: a vector with a read and a write offset. Sizes are std::size_t of 64 bits.
pub mod Laws
pub mod Fields
mod Tests
use uft.Prelude.{
  ℕ, ◌+◌, ◌%◌, ◌^◌, Bool, true, false, not, List, [], ◌∷◌, ◌++◌, length, take, drop, replicate, ltb,
  ◌==◌, if◌then◌else◌,
}
use uft.BitConverter.{
  store, load, host_to_network32, host_to_network64, network_to_host32, network_to_host64,
}

pub record ByteBuffer : Type 0 where
  pub buffer : List ℕ
  pub offset_r : ℕ
  pub offset_w : ℕ

-- ByteBuffer(capacity), and ByteBuffer(lpBuffer, bufferSize).
unfoldable pub create : ℕ → ByteBuffer
create capacity = record { buffer = replicate capacity 0; offset_r = 0; offset_w = 0 }

pub of_memory : List ℕ → ByteBuffer
of_memory xs = record { buffer = xs; offset_r = 0; offset_w = length xs }

abbrev pub get_size : ByteBuffer → ℕ
get_size b = b.offset_w

abbrev pub get_capacity : ByteBuffer → ℕ
get_capacity b = length b.buffer

unfoldable pub set_offset_r : ℕ → ByteBuffer → ByteBuffer
set_offset_r value b = record b { offset_r = if ltb (get_size b) value then get_size b else value }

unfoldable pub set_offset_w : ℕ → ByteBuffer → ByteBuffer
set_offset_w value b = record b {
  offset_w = if ltb (get_capacity b) value then get_capacity b else value;
}

abbrev pub size_mod : ℕ
size_mod = 2 ^ 64

-- `eof` is the answer false; `wild` is a copy from outside the vector, which C++ leaves undefined.
pub data Reading (A : Type 0) : Type 0 where
  eof : Reading A
  wild : Reading A
  got : A → ByteBuffer → Reading A

-- Read(void*, size): the sum in the test wraps.
unfoldable pub read_bytes : ℕ → ByteBuffer → Reading (List ℕ)
read_bytes size b =
    if ltb (get_capacity b) ((b.offset_r + size) % size_mod)
    then eof
    else if ltb (get_capacity b) (b.offset_r + size)
    then wild
    else got (take size (drop b.offset_r b.buffer)) (record b { offset_r = b.offset_r + size })

abbrev pub decode : {A B : Type 0} → (A → B) → Reading A → Reading B
decode f eof = eof
decode f wild = wild
decode f (got a b) = got (f a) b

-- Read(bool&): any byte but 0 counts as true.
unfoldable pub read_bool : ByteBuffer → Reading Bool
read_bool b = decode (λ xs. not (load xs == 0)) (read_bytes 1 b)

-- Read(T&) at std::uint8_t and the enums over it, std::uint32_t and std::uint64_t.
unfoldable pub read_u8 : ByteBuffer → Reading ℕ
read_u8 b = decode load (read_bytes 1 b)

unfoldable pub read_u32 : ByteBuffer → Reading ℕ
read_u32 b = decode (λ xs. network_to_host32 (load xs)) (read_bytes 4 b)

unfoldable pub read_u64 : ByteBuffer → Reading ℕ
read_u64 b = decode (λ xs. network_to_host64 (load xs)) (read_bytes 8 b)

pub data Writing : Type 0 where
  full : Writing
  wild_write : Writing
  wrote : ByteBuffer → Writing

-- Write(const void*, size)
unfoldable pub write_bytes : List ℕ → ByteBuffer → Writing
write_bytes xs b =
    if ltb (get_capacity b) ((b.offset_w + length xs) % size_mod)
    then full
    else if ltb (get_capacity b) (b.offset_w + length xs)
    then wild_write
    else wrote (record b {
      buffer = take b.offset_w b.buffer ++ (xs ++ drop (b.offset_w + length xs) b.buffer);
      offset_w = b.offset_w + length xs;
    })

-- Write(T) puts the bytes that the host has in memory after HostToNetwork.
unfoldable pub write_bool : Bool → ByteBuffer → Writing
write_bool value = write_bytes ((if value then 1 else 0) ∷ [])

unfoldable pub write_u8 : ℕ → ByteBuffer → Writing
write_u8 value = write_bytes (store 1 value)

unfoldable pub write_u32 : ℕ → ByteBuffer → Writing
write_u32 value = write_bytes (store 4 (host_to_network32 value))

unfoldable pub write_u64 : ℕ → ByteBuffer → Writing
write_u64 value = write_bytes (store 8 (host_to_network64 value))
