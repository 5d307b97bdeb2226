-- ===== src/Session/Wire.antt =====
-- The packets of UFT/UFTSession.hpp as bytes, and that sending and reading agree on them.
use uft.Prelude.{
  ℕ, suc, ◌+◌, ◌-◌, ◌%◌, ◌^◌, ◌<◌, ◌≡◌, refl, sym, ap, ◌∙◌, arith, List, [], ◌∷◌, ◌++◌, append-nil,
  append_assoc, length, take, length-append, take-append, drop-append, take_all, ok,
}
use uft.World.{World, Env}
use uft.BitConverter.Order.{big_endian, length-big_endian, store-host_to_network64}
use uft.ByteBuffer.{
  ByteBuffer, Writing, wrote, write_bytes, write_u8, write_u64, create, set_offset_w, size_mod,
}
use uft.ByteBuffer.Laws.{filling, drop-append-add}
use uft.ByteBuffer.Fields.{Writes, write_u8-Writes, write_u64-Writes}
use uft.Session.{OpCode, op_byte}
use uft.Session.Packet.{emit_all, create_packet, send_packet, send_op, header_size}
use uft.Socket.Transfer.{send_all}
use uft.Socket.Delivery.{Link, IsUp, at, SentAll, send_all_lem}

-- The pieces of a payload, one behind the other.
abbrev pub flat : List (List ℕ) → List ℕ
flat [] = []
flat (p ∷ ps) = p ++ flat ps

-- The bytes of a packet.
abbrev pub packet : OpCode → List ℕ → List ℕ
packet op payload = op_byte op ∷ (big_endian 8 (length payload) ++ payload)

pub length-packet : (op : OpCode) (p : List ℕ) → length (packet op p) ≡ header_size + length p
length-packet op p =
    omega (arith, length-append (big_endian 8 (length p)) p, length-big_endian 8 (length p))

pub op_byte-lt : (op : OpCode) → op_byte op < 256
op_byte-lt op = ground arith

-- Each write appends its piece.
abbrev pub Layout : List (ByteBuffer → Writing) → List (List ℕ) → Type 0
Layout [] [] = Unit
Layout [] (p ∷ ps) = ⊥
Layout (f ∷ fs) [] = ⊥
Layout (f ∷ fs) (p ∷ ps) = Writes f p × Layout fs ps

module _ {W : Type 0} where
  emit_all-filling :
      (fs : List (ByteBuffer → Writing)) (ps : List (List ℕ)) (xs : List ℕ) (w : W)
      → Layout fs ps
      → length xs + length (flat ps) < size_mod
      → emit_all fs (filling xs (length (flat ps))) w ≡ ok (filling (xs ++ flat ps) 0) w
  emit_all-filling [] [] xs w l h = ap (λ (ys : List ℕ). ok (filling ys 0) w) (sym (append-nil xs))
  emit_all-filling [] (p ∷ ps) xs w l h = absurd l
  emit_all-filling (f ∷ fs) [] xs w l h = absurd l
  emit_all-filling (f ∷ fs) (p ∷ ps) xs w (l, ls) h =
      let count = length-append p (flat ps) in
      let first = l xs (length (flat ps)) (omega arith) in
      let rest = emit_all-filling fs ps (xs ++ p) w ls (omega (arith, length-append xs p)) in
      rw count (ground (arith, append_assoc xs p (flat ps)))

  create_packet_lem :
      (op : OpCode) (capacity : ℕ) (fs : List (ByteBuffer → Writing)) (ps : List (List ℕ)) (w : W)
      → Layout fs ps
      → capacity ≡ length (flat ps)
      → header_size + capacity < size_mod
      → create_packet op capacity fs w ≡ ok (filling (op_byte op ∷ (big_endian 8 0 ++ flat ps)) 0) w
  unfolding create_packet create
  create_packet_lem op capacity fs ps w l e h =
      let count = length-append (big_endian 8 0) (flat ps) in
      let size = length-big_endian 8 0 in
      let total : header_size + capacity ≡ suc (length (big_endian 8 0 ++ flat ps)) = omega arith in
      rw total (
        emit_all-filling (write_u8 (op_byte op) ∷ write_u64 0 ∷ fs)
          ((op_byte op ∷ []) ∷ big_endian 8 0 ∷ ps) [] w
          (write_u8-Writes (op_byte op) (op_byte-lt op), (write_u64-Writes 0, l)) (omega arith))

-- Bytes written over as many.
write-over :
    (front old rest bs : List ℕ) (r : ℕ)
    → length old ≡ length bs
    → length front + length old + length rest < size_mod
    → write_bytes bs
        (record { buffer = front ++ (old ++ rest); offset_r = r; offset_w = length front })
      ≡ wrote (record {
        buffer = front ++ (bs ++ rest);
        offset_r = r;
        offset_w = length front + length bs;
      })
unfolding write_bytes
write-over front old rest bs r e h = ground (
  arith,
  length-append front (old ++ rest),
  length-append old rest,
  take-append front (old ++ rest),
  drop-append-add front (old ++ rest) (length bs),
  drop-append old rest,
)

set_offset_w-buffer : (n : ℕ) (b : ByteBuffer) → (set_offset_w n b).buffer ≡ b.buffer
unfolding set_offset_w
set_offset_w-buffer n b = refl

-- A packet as CreatePacketBuffer and the writes leave it, and with its size filled in.
abbrev blank : OpCode → List ℕ → ByteBuffer
blank op p = filling (op_byte op ∷ (big_endian 8 0 ++ p)) 0

abbrev sized : OpCode → List ℕ → ℕ → ByteBuffer
sized op p n = record { buffer = packet op p; offset_r = 0; offset_w = n }

blank-offset : (op : OpCode) (p : List ℕ) → (blank op p).offset_w ≡ header_size + length p
blank-offset op p = omega (arith, length-append (big_endian 8 0) p, length-big_endian 8 0)

rewind :
    (op : OpCode) (p : List ℕ)
    → set_offset_w 1 (blank op p)
      ≡ record { buffer = (op_byte op ∷ []) ++ (big_endian 8 0 ++ p); offset_r = 0; offset_w = 1 }
unfolding set_offset_w
rewind op p = ground (arith, append-nil (big_endian 8 0 ++ p))

fill_size :
    (op : OpCode) (p : List ℕ)
    → header_size + length p < 2 ^ 31
    → write_u64
        (((blank op p).offset_w + size_mod - header_size) % size_mod)
        (set_offset_w 1 (blank op p))
      ≡ wrote (sized op p header_size)
unfolding write_u64
fill_size op p h =
    let n : ((blank op p).offset_w + size_mod - header_size) % size_mod ≡ length p =
      omega (arith, blank-offset op p) in
    let zeros = length-big_endian 8 0 in
    let count = length-big_endian 8 (length p) in
    rw (n, store-host_to_network64, rewind)
      (write-over (op_byte op ∷ []) (big_endian 8 0) p (big_endian 8 (length p)) 0 (omega arith)
          (omega arith)
        ∙ ap (λ (k : ℕ). wrote (sized op p k)) (omega arith))

module _ {U : Type 0} (env : Env U) (link : Link env.udt) where
  send_packet_step :
      (b b' : ByteBuffer) (w : World U)
      → write_u64 ((b.offset_w + size_mod - header_size) % size_mod) (set_offset_w 1 b) ≡ wrote b'
      → send_packet env b w ≡ send_all env (take (b.offset_w % 2 ^ 32) b'.buffer) w
  unfolding send_packet
  send_packet_step b b' w e = ground (arith, set_offset_w-buffer b.offset_w b')

  -- The size goes into bytes 1 to 8, and the whole packet is sent.
  send_packet_lem :
      (op : OpCode) (p : List ℕ) (w : World U)
      → IsUp env link w.sock
      → header_size + length p < 2 ^ 31
      → header_size + length p + link.queues.waits w.net < env.fuel
      → (v : U) × (send_packet env (blank op p) w ≡ ok (header_size + length p) (at env link w v))
        × SentAll env link (packet op p) w.net v
  send_packet_lem op p w up h k =
      let whole = length-packet op p in
      let (v, run, moved) = send_all_lem env link (packet op p) w up (omega arith) (omega arith) in
      let all =
        take_all ((blank op p).offset_w % 2 ^ 32) (packet op p)
          (omega (arith, blank-offset op p)) in
      let step = send_packet_step (blank op p) (sized op p header_size) w (fill_size op p h) in
      (
        v,
        step
            ∙ ap (λ (l : List ℕ). send_all env l w) all
            ∙ run
            ∙ ap (λ (n : ℕ). ok n (at env link w v)) whole,
        moved,
      )

  -- A block that creates a packet of an opcode, writes fields into it and sends it, over a link
  -- that stays up, where each write appends its piece, the capacity is the length of the pieces,
  -- below 2 ^ 31 with the header, and the fuel is enough for it and the waits: it ends well,
  -- having sent the opcode, the length of the pieces in network order and the pieces, and taken
  -- nothing.
  pub send_op_lem :
      (op : OpCode) (capacity : ℕ) (fs : List (ByteBuffer → Writing)) (ps : List (List ℕ))
      (w : World U)
      → Layout fs ps
      → capacity ≡ length (flat ps)
      → IsUp env link w.sock
      → header_size + capacity < 2 ^ 31
      → header_size + capacity + link.queues.waits w.net < env.fuel
      → (v : U) × (send_op env op capacity fs w ≡ ok tt (at env link w v))
        × SentAll env link (packet op (flat ps)) w.net v
  unfolding send_op
  send_op_lem op capacity fs ps w l e up h k =
      let made = create_packet_lem op capacity fs ps w l e (omega arith) in
      let (v, run, moved) = send_packet_lem op (flat ps) w up (omega arith) (omega arith) in
      (v, ground arith, moved)
