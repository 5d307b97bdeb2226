-- ===== src/ByteBuffer/Laws.antt =====
-- Writing into fresh space and reading what is left, as equations.
use uft.Prelude.{
  ℕ, ◌+◌, ◌≤◌, ◌<◌, ◌≡◌, ◌↔◌, sym, ap, ◌∙◌, List, ◌++◌, arith, append_assoc, length, drop,
  replicate, length-append, length-replicate, take-append, drop-append, drop-drop, zero, suc,
}
use uft.ByteBuffer.{ByteBuffer, size_mod, wild, got, read_bytes, wrote, write_bytes, get_capacity}

-- A buffer that holds `xs` and has room for `n` bytes more.
abbrev pub filling : List ℕ → ℕ → ByteBuffer
filling xs n = record { buffer = xs ++ replicate n 0; offset_r = 0; offset_w = length xs }

-- A buffer of which `xs` is read and `ys` is not.
abbrev pub unread : List ℕ → List ℕ → ℕ → ByteBuffer
unread xs ys w = record { buffer = xs ++ ys; offset_r = length xs; offset_w = w }

drop-replicate : (n m : ℕ) → drop n (replicate {A = ℕ} (n + m) 0) ≡ replicate m 0
drop-replicate zero m = ap (λ (k : ℕ). replicate k 0) (omega arith)
drop-replicate (suc n) m =
    let e : suc n + m ≡ suc (n + m) = omega arith in rw e (drop-replicate n m)

pub drop-append-add : (xs ys : List ℕ) (n : ℕ) → drop (length xs + n) (xs ++ ys) ≡ drop n ys
drop-append-add xs ys n =
    sym (drop-drop (length xs) n (xs ++ ys)) ∙ ap (λ (l : List ℕ). drop n l) (drop-append xs ys)

-- Bytes that fit the room are written behind what is there.
pub write-filling :
    (xs bs : List ℕ) (m : ℕ)
    → length xs + length bs + m < size_mod
    → write_bytes bs (filling xs (length bs + m)) ≡ wrote (filling (xs ++ bs) m)
unfolding write_bytes
write-filling xs bs m h = ground (
  arith,
  length-append xs (replicate (length bs + m) 0),
  length-replicate {0} {A = ℕ} (length bs + m) 0,
  take-append xs (replicate (length bs + m) 0),
  drop-append-add xs (replicate (length bs + m) 0) (length bs),
  drop-replicate (length bs) m,
  append_assoc xs bs (replicate m 0),
  length-append xs bs,
)

pub read-unread :
    (xs p ys : List ℕ) (w : ℕ)
    → length xs + length p + length ys < size_mod
    → read_bytes (length p) (unread xs (p ++ ys) w) ≡ got p (unread (xs ++ p) ys w)
unfolding read_bytes
read-unread xs p ys w h = ground (
  arith,
  length-append xs (p ++ ys),
  length-append p ys,
  drop-append xs (p ++ ys),
  take-append p ys,
  append_assoc xs p ys,
  length-append xs p,
)

-- Read of `size` bytes from a buffer whose read offset is within its capacity, both sizes below 2
-- ^ 64: the copy leaves the vector exactly when the sum of the offset and the size reaches 2 ^ 64.
pub read_bytes-wild :
    (size : ℕ) (b : ByteBuffer)
    → size < size_mod
    → get_capacity b < size_mod
    → b.offset_r ≤ get_capacity b
    → (read_bytes size b ≡ wild) ↔ (size_mod ≤ b.offset_r + size)
unfolding read_bytes
read_bytes-wild size b hs hc hr = ground arith
