-- ===== src/ByteBuffer/Fields.antt =====
-- Each typed Write of UFT/ByteBuffer.hpp appends its bytes in network order, and the Read of the
-- same type takes them off again.
use uft.Prelude.{
  ℕ, ◌+◌, ◌*◌, ◌%◌, ◌^◌, ◌<◌, ◌≡◌, sym, ap, ◌∙◌, arith, Bool, true, false, List, [], ◌∷◌, ◌++◌,
  length,
}
use uft.BitConverter.{store, load, network_to_host32, network_to_host64}
use uft.BitConverter.Order.{
  big_endian, network_order32, network_order64, length-big_endian, store-host_to_network32,
  store-host_to_network64,
}
use uft.ByteBuffer.{
  ByteBuffer, size_mod, Reading, got, decode, read_bytes, read_bool, read_u8, read_u32, read_u64,
  Writing, wrote, write_bytes, write_bool, write_u8, write_u32, write_u64,
}
use uft.ByteBuffer.Laws.{filling, unread, write-filling, read-unread}

-- `f` appends the bytes `bs` wherever they fit.
abbrev pub Writes : (ByteBuffer → Writing) → List ℕ → Type 0
Writes f bs =
    (xs : List ℕ) (m : ℕ)
    → length xs + length bs + m < size_mod
    → f (filling xs (length bs + m)) ≡ wrote (filling (xs ++ bs) m)

-- `f` takes the bytes `bs` off for the value `a`.
abbrev pub Reads : {A : Type 0} → (ByteBuffer → Reading A) → List ℕ → A → Type 0
Reads f bs a =
    (xs ys : List ℕ) (w : ℕ)
    → length xs + length bs + length ys < size_mod
    → f (unread xs (bs ++ ys) w) ≡ got a (unread (xs ++ bs) ys w)

abbrev pub bool_byte : Bool → List ℕ
bool_byte true = 1 ∷ []
bool_byte false = 0 ∷ []

pub write_bytes-Writes : (bs : List ℕ) → Writes (write_bytes bs) bs
write_bytes-Writes bs xs m h = write-filling xs bs m h

pub write_bool-Writes : (b : Bool) → Writes (write_bool b) (bool_byte b)
unfolding write_bool
write_bool-Writes true = write_bytes-Writes (1 ∷ [])
write_bool-Writes false = write_bytes-Writes (0 ∷ [])

pub write_u8-Writes : (v : ℕ) → v < 256 → Writes (write_u8 v) (v ∷ [])
unfolding write_u8 store
write_u8-Writes v h = let e : v % 256 ≡ v = omega arith in rw e (write_bytes-Writes (v ∷ []))

pub write_u32-Writes : (v : ℕ) → Writes (write_u32 v) (big_endian 4 v)
unfolding write_u32
write_u32-Writes v = rw store-host_to_network32 (write_bytes-Writes (big_endian 4 v))

pub write_u64-Writes : (v : ℕ) → Writes (write_u64 v) (big_endian 8 v)
unfolding write_u64
write_u64-Writes v = rw store-host_to_network64 (write_bytes-Writes (big_endian 8 v))

pub read_bytes-Reads : (bs : List ℕ) → Reads (read_bytes (length bs)) bs bs
read_bytes-Reads bs xs ys w h = read-unread xs bs ys w h

pub read_bool-Reads : (b : Bool) → Reads read_bool (bool_byte b) b
unfolding read_bool load
read_bool-Reads true xs ys w h = ap (decode _) (read-unread xs (1 ∷ []) ys w h)
read_bool-Reads false xs ys w h = ap (decode _) (read-unread xs (0 ∷ []) ys w h)

pub read_u8-Reads : (v : ℕ) → Reads read_u8 (v ∷ []) v
unfolding read_u8 load
read_u8-Reads v xs ys w h =
    let e : v + 256 * 0 ≡ v = omega arith in
    ap (decode load) (read-unread xs (v ∷ []) ys w h)
    ∙ ap (λ (n : ℕ). got n (unread (xs ++ (v ∷ [])) ys w)) e

-- A word read through `f` from its bytes in network order.
read_word :
    (n : ℕ) (f : ℕ → ℕ) (v : ℕ) (xs ys : List ℕ) (w : ℕ)
    → length xs + length (big_endian n v) + length ys < size_mod
    → f (load (big_endian n v)) ≡ v
    → decode (λ bs. f (load bs)) (read_bytes n (unread xs (big_endian n v ++ ys) w))
      ≡ got v (unread (xs ++ big_endian n v) ys w)
read_word n f v xs ys w h e =
    let apply = λ (bs : List ℕ). f (load bs) in
    ap (λ (k : ℕ). decode apply (read_bytes k (unread xs (big_endian n v ++ ys) w)))
      (sym (length-big_endian n v))
    ∙ ap (decode apply) (read-unread xs (big_endian n v) ys w h)
    ∙ ap (λ (a : ℕ). got a (unread (xs ++ big_endian n v) ys w)) e

pub read_u32-Reads : (v : ℕ) → v < 2 ^ 32 → Reads read_u32 (big_endian 4 v) v
unfolding read_u32
read_u32-Reads v k xs ys w h = read_word 4 network_to_host32 v xs ys w h (network_order32 v k).1

pub read_u64-Reads : (v : ℕ) → v < 2 ^ 64 → Reads read_u64 (big_endian 8 v) v
unfolding read_u64
read_u64-Reads v k xs ys w h = read_word 8 network_to_host64 v xs ys w h (network_order64 v k).1
