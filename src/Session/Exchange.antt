-- ===== src/Session/Exchange.antt =====
-- The messages that two sessions of UFT/UFTSession.hpp exchange for a file, and what it means that they
-- have gone out and come in.
use Prim.Native.Nat.{bit_xor}
use uft.Prelude.{
  ℕ, ◌+◌, ◌*◌, ◌%◌, ◌^◌, ◌≤◌, ◌<◌, ◌≡◌, sym, ◌∙◌, arith, Bool, true, List, [], ◌∷◌, ◌++◌,
  append-nil, append_assoc, length, take, length-append, append-cancel,
}
use uft.World.{Env}
use uft.Files.{Files}
use uft.BitConverter.Order.{big_endian, length-big_endian}
use uft.ByteBuffer.Fields.{bool_byte}
use uft.Session.{transmit_file_hash, transmit_file_chunk, transmit_file_chunk_result}
use uft.Session.Packet.{header_size}
use uft.Session.Chunk.{fnv, calculate_file_chunk_hash}
use uft.Session.Wire.{packet, flat}
use uft.Socket.Delivery.{Link, SentAll, GotAll}

-- What zlib documents at the program's level, for chunks of this size; what the sizes must fit;
-- and a disk that takes every write.
pub record Healthy {U : Type 0} (env : Env U) : Type 0 where
  pub fits :
      (xs : List ℕ)
      → length xs ≤ env.chunk_size
      → length (env.zlib.deflate xs (env.chunk_size * 2)) ≤ env.chunk_size * 2
  pub lossless :
      (xs : List ℕ)
      → length xs ≤ env.chunk_size
      → env.zlib.inflate (env.zlib.deflate xs (env.chunk_size * 2)) env.chunk_size ≡ xs
  pub chunk_pos : 0 < env.chunk_size
  pub chunk_small : env.chunk_size ≤ 2 ^ 28
  pub disk : (fs : Files) (p : List ℕ) (n : ℕ) (xs : List ℕ) → env.os.may_write fs p n xs ≡ true

pub fnv-lt : (h : ℕ) (xs : List ℕ) → h < 2 ^ 64 → fnv h xs < 2 ^ 64
unfolding fnv
fnv-lt h [] k = k
fnv-lt h (b ∷ bs) k = fnv-lt (bit_xor h b * 0x100000001B3 % 2 ^ 64) bs (omega arith)

-- The hash of a whole list of bytes.
abbrev pub hash_of : List ℕ → ℕ
hash_of xs = calculate_file_chunk_hash xs (length xs)

pub hash_of-lt : (xs : List ℕ) → hash_of xs < 2 ^ 64
unfolding calculate_file_chunk_hash
hash_of-lt xs = fnv-lt 0xCBF29CE484222325 (take (length xs) xs) (omega arith)

pub words_size :
    (a b c : ℕ) (rest : List ℕ)
    → length (big_endian 8 a ++ (big_endian 8 b ++ (big_endian 8 c ++ rest))) ≡ 24 + length rest
words_size a b c rest = omega (
  arith,
  length-append (big_endian 8 a) (big_endian 8 b ++ (big_endian 8 c ++ rest)),
  length-append (big_endian 8 b) (big_endian 8 c ++ rest),
  length-append (big_endian 8 c) rest,
  length-big_endian 8 a,
  length-big_endian 8 b,
  length-big_endian 8 c,
)

module _ {U : Type 0} (env : Env U) where
  abbrev pub deflated : List ℕ → List ℕ
  deflated xs = env.zlib.deflate xs (env.chunk_size * 2)

  -- The messages of the protocol.
  abbrev pub chunk_message : ℕ → List ℕ → List ℕ
  chunk_message offset xs = packet transmit_file_chunk (
      flat (
        big_endian 8 offset
        ∷ big_endian 8 (length xs)
        ∷ big_endian 8 (length (deflated xs))
        ∷ deflated xs
        ∷ []))

  abbrev pub hash_message : ℕ → List ℕ → List ℕ
  hash_message offset xs =
      packet transmit_file_hash
        (flat (big_endian 8 offset ∷ big_endian 8 (length xs) ∷ big_endian 8 (hash_of xs) ∷ []))

  abbrev pub result_message : Bool → List ℕ
  result_message success = packet transmit_file_chunk_result (flat (bool_byte success ∷ []))

module _ {U : Type 0} (env : Env U) (link : Link env.udt) where
  open link use {queues.{incoming, outgoing, waits}}

  -- `out` has gone out and `come` has been taken in.
  abbrev pub Talk : List ℕ → List ℕ → U → U → Type 0
  Talk out come u v =
      (outgoing v ≡ outgoing u ++ out) × (incoming u ≡ come ++ incoming v) × (waits v ≤ waits u)

  pub Talk-trans :
      (out₁ out₂ come₁ come₂ : List ℕ) (u v t : U)
      → Talk out₁ come₁ u v
      → Talk out₂ come₂ v t
      → Talk (out₁ ++ out₂) (come₁ ++ come₂) u t
  Talk-trans out₁ out₂ come₁ come₂ u v t (a, b, c) (d, e, f) = (
    cc (append_assoc (outgoing u) out₁ out₂),
    cc (append_assoc come₁ come₂ (incoming t)),
    omega arith,
  )

  -- What still waits after the talk.
  pub Talk-left :
      (out come more : List ℕ) (u v : U)
      → Talk out come u v
      → incoming u ≡ come ++ more
      → incoming v ≡ more
  Talk-left out come more u v (a, b, c) i = append-cancel come (incoming v) more (sym b ∙ i)

  pub of_sent : (xs : List ℕ) (u v : U) → SentAll env link xs u v → Talk xs [] u v
  of_sent xs u v (a, b, c) = (a, sym b, c)

  pub of_got : (xs : List ℕ) (u v : U) → GotAll env link xs u v → Talk [] xs u v
  of_got xs u v (a, b, c) = (a ∙ sym (append-nil (outgoing u)), b, c)

  pub sent_then_got :
      (out come : List ℕ) (u v t : U)
      → SentAll env link out u v
      → GotAll env link come v t
      → Talk out come u t
  sent_then_got out come u v t (a, b, c) (d, e, f) = (d ∙ a, sym b ∙ e, omega arith)

  pub then_got :
      (out come : List ℕ) (u v t : U)
      → Talk out [] u v
      → GotAll env link come v t
      → Talk out come u t
  then_got out come u v t (a, b, c) (d, e, f) = (d ∙ a, b ∙ e, omega arith)

  pub heard_before :
      (xs out come : List ℕ) (u v t : U)
      → GotAll env link xs u v
      → Talk out come v t
      → Talk out (xs ++ come) u t
  heard_before xs out come u v t (a, b, c) (d, e, f) =
      (cc, cc (append_assoc xs come (incoming t)), omega arith)

  pub got_then_sent :
      (out come : List ℕ) (u v t : U)
      → GotAll env link come u v
      → SentAll env link out v t
      → Talk out come u t
  got_then_sent out come u v t (a, b, c) (d, e, f) = (cc, cc, omega arith)

  -- A round of the sender or the receiver has fuel for its largest packet.
  abbrev pub Enough : U → Type 0
  Enough u = header_size + 24 + env.chunk_size * 2 + waits u < env.fuel
