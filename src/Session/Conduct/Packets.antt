-- ===== src/Session/Conduct/Packets.antt =====
-- UFT/UFTSession.hpp: the packets that a session sends and reads, under a Conduct.
use uft.Prelude.{
  length, length-take, ◌<◌, arith, ℕ, ◌+◌, ◌-◌, ◌%◌, ◌^◌, ◌==◌, true, take, List, [], ◌∷◌, Program,
  ◌>>=◌, modify, network_api_error, network_connection_lost,
}
use uft.Prelude.Keeps.{After, Leads, Leads-crash, Leads-bind, Leads-pure, Leads-throw, Leads-test}
use uft.World.{Env}
use uft.Socket.Transfer.{send_all}
use uft.ByteBuffer.{
  write_u8, write_u64, size_mod, set_offset_w, create, ByteBuffer, Writing, full, wild_write, wrote,
  Reading, eof, wild, got,
}
use uft.Session.{OpCode, op_byte}
use uft.Session.Packet.{
  header_size, emit, emit_all, create_packet, send_packet, send_op, disconnect, break_off, field,
  read_packet,
}
use uft.Session.Conduct.{Conduct, less_one, Goes, Ebbs, Goes-of, Ebbs-then}

length-take_word : (n : ℕ) (xs : List ℕ) → length (take (n % 2 ^ 32) xs) < 2 ^ 32
length-take_word n xs = omega (arith, length-take (n % 2 ^ 32) xs)

Leads-reading :
    {W A B : Type 0} {S : Type 0} {P Q : W → Type 0} (r : Reading A) (m n : Program W B)
    (f : A → ByteBuffer → Program W B)
    → Leads S P Q m
    → Leads S P Q n
    → ((a : A) (b : ByteBuffer) → Leads S P Q (f a b))
    → Leads S P Q (elim r as (λ x. Program W B) [ eof ↦ m | wild ↦ n | got a b ↦ f a b ])
Leads-reading eof m n f km kn kf = km
Leads-reading wild m n f km kn kf = kn
Leads-reading (got a b) m n f km kn kf = kf a b

After-emit :
    {W A : Type 0} {S : Type 0} {P Q : W → Type 0} (r : Writing) (b : ByteBuffer)
    (k : ByteBuffer → Program W A) (w : W)
    → P w
    → ((b' : ByteBuffer) → Leads S P Q (k b'))
    → After S P Q (◌>>=◌ (emit (λ _. r) b) k w)
After-emit full b k w h kk = (kk b).at w h
After-emit wild_write b k w h kk = tt
After-emit (wrote b') b k w h kk = (kk b').at w h

Leads-emit :
    {W A : Type 0} {S : Type 0} {P Q : W → Type 0} (f : ByteBuffer → Writing) (b : ByteBuffer)
    (k : ByteBuffer → Program W A)
    → ((b' : ByteBuffer) → Leads S P Q (k b'))
    → Leads S P Q (emit f b >>= k)
Leads-emit f b k kk = record { at = λ w h. After-emit (f b) b k w h kk }

module _ {U : Type 0} {env : Env U} (conduct : Conduct env) where
  open conduct use {Holds, Stuck}

  pub break_off-Leads :
      {A : Type 0} (k j : ℕ) → Leads Stuck (Holds k) (Holds j) (break_off env {A = A})
  break_off-Leads k j =
      Leads-bind (modify (disconnect env)) _ (conduct.drops k) λ u. Leads-throw network_api_error

  pub read_packet-Ebbs : (k : ℕ) (op : OpCode) → Ebbs conduct k (read_packet env op)
  unfolding read_packet
  read_packet-Ebbs k op = Ebbs-then conduct k _ _ (conduct.hears k true) λ a.
      Leads-test (op_byte a.0 == op_byte op) _ _ (Leads-pure a.1)
        (break_off-Leads (less_one k) (less_one k))

  pub read_packet-Goes : (k : ℕ) (op : OpCode) → Goes conduct k (read_packet env op)
  read_packet-Goes k op = Goes-of conduct k (read_packet env op) (read_packet-Ebbs k op)

  pub field-Goes :
      {A : Type 0} (k : ℕ) (f : ByteBuffer → Reading A) (b : ByteBuffer)
      → Goes conduct k (field env f b)
  field-Goes k f b =
      Leads-reading (f b) _ _ _ (break_off-Leads k k) Leads-crash λ a b'. Leads-pure (a, b')

  emit_all-Goes :
      (k : ℕ) (fs : List (ByteBuffer → Writing)) (b : ByteBuffer) → Goes conduct k (emit_all fs b)
  emit_all-Goes k [] b = Leads-pure b
  emit_all-Goes k (f ∷ fs) b = Leads-emit f b (emit_all fs) (emit_all-Goes k fs)

  send_packet-Goes : (k : ℕ) (b : ByteBuffer) → Goes conduct k (send_packet env b)
  unfolding send_packet
  send_packet-Goes k b =
      let payload_size = (b.offset_w + size_mod - header_size) % size_mod in
      Leads-emit (write_u64 payload_size) (set_offset_w 1 b)
        (λ b'. send_all env (take (b.offset_w % 2 ^ 32) (set_offset_w b.offset_w b').buffer))
        (λ b'.
          conduct.says k (take (b.offset_w % 2 ^ 32) (set_offset_w b.offset_w b').buffer)
            (length-take_word b.offset_w (set_offset_w b.offset_w b').buffer))

  pub send_op-Goes :
      (k : ℕ) (op : OpCode) (capacity : ℕ) (fields : List (ByteBuffer → Writing))
      → Goes conduct k (send_op env op capacity fields)
  unfolding send_op create_packet
  send_op-Goes k op capacity fields =
      Leads-bind _ _
        (emit_all-Goes k (write_u8 (op_byte op) ∷ write_u64 0 ∷ fields)
          (create (header_size + capacity)))
        λ b.
          Leads-bind _ _ (send_packet-Goes k b)
            λ n. Leads-test (n == 0) _ _ (Leads-throw network_connection_lost) (Leads-pure tt)
