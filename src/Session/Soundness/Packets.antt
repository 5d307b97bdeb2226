-- ===== src/Session/Soundness/Packets.antt =====
-- UFT/UFTSession.hpp: the socket under the packets that a session sends and reads.
use uft.Prelude.{
  ltb, drop, ℕ, ◌+◌, ◌%◌, ◌<◌, ◌^◌, ◌==◌, arith, Bool, true, false, take, List, Program, modify,
  network_connection_lost,
}
use uft.Prelude.Keeps.{
  Leads-crash, Keeps, Leads-bind, Leads-pure, Leads-case, Leads-throw, Leads-test, leads_rules,
}
use uft.World.{Env}
use uft.BitConverter.{load, network_to_host64}
use uft.Socket.Transfer.{Trial, lost, would_block, all_of}
use uft.Session.{op_of_byte}
use uft.Session.Packet.{
  max_size, header_size, disconnect, break_off, read_payload, read_header, read_next_packet,
}
use uft.Session.Soundness.{Sound, receive_all-Sound, try_receive_all-Sound}

Leads-trial :
    {W A : Type 0} {P : W → Type 0} (t : Trial) (m n : Program W A) (f : List ℕ → Program W A)
    → Keeps P m
    → Keeps P n
    → ((xs : List ℕ) → Keeps P (f xs))
    → Keeps P (elim t as (λ x. Program W A) [ lost ↦ m | would_block ↦ n | all_of xs ↦ f xs ])
Leads-trial lost m n f km kn kf = km
Leads-trial would_block m n f km kn kf = kn
Leads-trial (all_of xs) m n f km kn kf = kf xs

module _ {U : Type 0} (env : Env U) (others : ℕ) (few : others + 1 < 2 ^ 64) where
  pub disconnect-Sound : Keeps (Sound others) (modify (disconnect env))
  unfolding disconnect
  disconnect-Sound = record { at = λ w h. ground arith }

  pub break_off-Sound : {A : Type 0} → Keeps (Sound others) (break_off env {A = A})
  break_off-Sound = search (leads_rules, disconnect-Sound)

  pub read_payload-Sound : (n : ℕ) → Keeps (Sound others) (read_payload env n)
  unfolding read_payload
  read_payload-Sound n =
      Leads-test (ltb n max_size) _ _
        (Leads-test (n == 0) _ _ (Leads-pure _) (
          Leads-bind _ _ (receive_all-Sound env others few (n % 2 ^ 32))
            λ a. Leads-case a _ _ (Leads-throw network_connection_lost) λ xs. Leads-pure _))
        Leads-crash

  pub read_header-Sound : (b : Bool) → Keeps (Sound others) (read_header env b)
  unfolding read_header
  read_header-Sound true =
      Leads-bind _ _ (receive_all-Sound env others few header_size)
        λ a. Leads-case a _ _ (Leads-throw _) Leads-pure
  read_header-Sound false =
      Leads-bind _ _ (try_receive_all-Sound env others few header_size)
        λ t. Leads-trial t _ _ _ (Leads-throw _) (Leads-throw _) Leads-pure

  pub read_next_packet-Sound : (b : Bool) → Keeps (Sound others) (read_next_packet env b)
  unfolding read_next_packet
  read_next_packet-Sound b = Leads-bind _ _ (read_header-Sound b) λ header.
      Leads-case (op_of_byte (load (take 1 header))) _ _ break_off-Sound λ op.
        Leads-bind _ _ (read_payload-Sound (network_to_host64 (load (drop 1 header))))
          λ buffer. Leads-pure _
