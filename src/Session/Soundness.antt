-- ===== src/Session/Soundness.antt =====
-- The socket under a session of UFT/UFTSession.hpp: its flags and the counter of UDT_Init, whatever
-- the peer sends and the library answers.
pub mod Packets
pub mod Idle
use uft.Prelude.{
  ℕ, zero, suc, ◌-◌, length, drop, ◌++◌, ◌+◌, ◌<◌, ◌^◌, ◌≡◌, refl, arith, Bool, true, false, not,
  ◌||◌, ◌&&◌, List, [], ◌∷◌, Option, none, some, ok, fail, crash, stuck, Program, pure, throw,
  ◌>>=◌, ◌>>◌, modify, gets,
}
use uft.Prelude.Keeps.{
  Leads-stuck, Leads-crash, Keeps, Leads-bind, Leads-pure, Leads-gets, Leads-bind-test,
  Leads-state-test, Leads-case, Leads-count, Leads-list, Leads-throw, Leads-test, leads_rules,
}
use uft.World.{World, Env, Context}
use uft.Socket.{send, receive, close}
use uft.Socket.Lifecycle.{IsSound, count}
use uft.Socket.Transfer.{
  Trial, trial, lost, would_block, all_of, send_loop, send_all, receive_loop, receive_all,
  try_receive_all,
}
use uft.ByteBuffer.{
  write_u64, size_mod, set_offset_w, ByteBuffer, Writing, full, wild_write, wrote, Reading, eof,
  wild, got,
}
use uft.Session.{OpCode, op_of_byte}
use uft.Prelude.{◌==◌, ◌%◌, take, network_connection_lost}
use uft.BitConverter.{load, network_to_host64}
use uft.Session.Packet.{
  header_size, emit, emit_all, create_packet, send_packet, send_op, disconnect, break_off, field,
  read_payload, read_header, read_next_packet, read_packet,
}

-- IsSound, of the counter and a Context.
pub record SoundSocket (others refs : ℕ) (c : Context) : Type 0 where
  pub counted : refs ≡ others + count c.is_open
  pub connected_open : (not c.is_connected || c.is_open) ≡ true
  pub listening_open : (not c.is_listening || c.is_open) ≡ true
  pub exclusive : (c.is_connected && c.is_listening) ≡ false

abbrev pub Sound : {U : Type 0} → ℕ → World U → Type 0
Sound others w = SoundSocket others w.refs w.sock

module _ {U : Type 0} (env : Env U) (others : ℕ) (few : others + 1 < 2 ^ 64) where
  pub send-Sound : (xs : List ℕ) → Keeps (Sound others) (send env xs)
  unfolding send close
  send-Sound xs = record { at = λ w h. ground arith }

  pub receive-Sound : (n : ℕ) → Keeps (Sound others) (receive env n)
  unfolding receive close
  receive-Sound n = record { at = λ w h. ground arith }

  pub send_loop-Sound : (fuel : ℕ) (xs : List ℕ) → Keeps (Sound others) (send_loop env fuel xs)
  unfolding send_loop
  send_loop-Sound fuel [] = search leads_rules
  send_loop-Sound zero (x ∷ rest) = Leads-stuck (λ w h. tt)
  send_loop-Sound (suc fuel) (x ∷ rest) =
      Leads-state-test (λ w. w.sock.is_connected) _ _
        (Leads-bind (send env (x ∷ rest)) _ (send-Sound (x ∷ rest)) λ a.
          Leads-case a _ _ (send_loop-Sound fuel (x ∷ rest)) λ k.
            Leads-count k _ _ (Leads-pure false)
              λ n. send_loop-Sound fuel (drop (suc n) (x ∷ rest)))
        (Leads-pure false)

  pub send_all-Sound : (xs : List ℕ) → Keeps (Sound others) (send_all env xs)
  unfolding send_all
  send_all-Sound xs = search (leads_rules, send_loop-Sound)

  pub receive_loop-Sound :
      (fuel size : ℕ) (xs : List ℕ) → Keeps (Sound others) (receive_loop env fuel size xs)
  unfolding receive_loop
  receive_loop-Sound fuel zero acc = search leads_rules
  receive_loop-Sound zero (suc size) acc = Leads-stuck (λ w h. tt)
  receive_loop-Sound (suc fuel) (suc size) acc =
      Leads-state-test (λ w. w.sock.is_connected) _ _
        (Leads-bind (receive env (suc size)) _ (receive-Sound (suc size)) λ a.
          Leads-case a _ _ (receive_loop-Sound fuel (suc size) acc) λ l.
            Leads-list l _ _ (Leads-pure none)
              λ x xs. receive_loop-Sound fuel (suc size - length (x ∷ xs)) (acc ++ (x ∷ xs)))
        (Leads-pure none)

  pub receive_all-Sound : (n : ℕ) → Keeps (Sound others) (receive_all env n)
  unfolding receive_all
  receive_all-Sound zero = search leads_rules
  receive_all-Sound (suc n) = search (leads_rules, receive_loop-Sound)

  pub try_receive_all-Sound : (n : ℕ) → Keeps (Sound others) (try_receive_all env n)
  unfolding try_receive_all
  try_receive_all-Sound n =
      Leads-state-test (λ w. w.sock.is_connected) _ _
        (Leads-bind (receive env n) _ (receive-Sound n) λ a.
          Leads-case a _ _ (Leads-pure would_block) λ l. Leads-list l _ _ (Leads-pure lost) λ x xs.
            Leads-bind (receive_loop env env.fuel (n - length (x ∷ xs)) (x ∷ xs)) _
              (receive_loop-Sound env.fuel (n - length (x ∷ xs)) (x ∷ xs))
              λ o. Leads-pure (trial o))
        (Leads-pure lost)
