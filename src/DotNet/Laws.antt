-- ===== src/DotNet/Laws.antt =====
-- The managed classes of UFT.DotNET/main.cpp against the classes that they hold.
use uft.Prelude.{
  ℕ, ◌+◌, ◌%◌, ◌^◌, ◌<◌, ◌≡◌, ap, ◌∙◌, arith, Bool, true, not, ◌||◌, List, ok, fail, Outcome, crash,
  stuck, if◌then◌else◌,
}
use uft.World.{World, Env}
use uft.BitConverter.{load}
use uft.BitConverter.Order.{big_endian}
use uft.Client.{connect_client}
use uft.DotNet.{
  address_word, Managed, with_delegate, managed_send_reporting, managed_receive_reporting,
  managed_connect,
}
use uft.Session.{c_string}
use uft.Session.Transmit.{send_file, receive_file}

address_word-big_endian : (host : ℕ) → host < 2 ^ 32 → address_word (big_endian 4 host) ≡ host
unfolding address_word big_endian load
address_word-big_endian host h = omega arith

module _ {U : Type 0} (env : Env U) where
  same_connect :
      (address : List ℕ) (port : ℕ) (w : World U)
      → (not w.sock.is_connected || w.sock.is_open) ≡ true
      → managed_connect env address port w
        ≡ connect_client env (address_word address) (port % 2 ^ 16) w
  unfolding managed_connect connect_client
  same_connect address port w h = ground arith

  -- UFT::DotNET::UFTClient::Connect, given the four bytes of an address in network order and a
  -- port below 2 ^ 16, does in every case what UFTClient::Connect does with the address as a
  -- number, on a socket that is open where it is connected.
  pub managed_connect_lem :
      (host port : ℕ) (w : World U)
      → host < 2 ^ 32
      → port < 2 ^ 16
      → (not w.sock.is_connected || w.sock.is_open) ≡ true
      → managed_connect env (big_endian 4 host) port w ≡ connect_client env host port w
  managed_connect_lem host port w h k c =
      let whole : port % 2 ^ 16 ≡ port = omega arith in
      same_connect (big_endian 4 host) port w c
      ∙ ap (λ (a : ℕ). connect_client env a (port % 2 ^ 16) w) (address_word-big_endian host h)
      ∙ ap (λ (p : ℕ). connect_client env host p w) whole

  -- The handles of a call with a delegate, by its outcome.
  delegate_handles :
      (o : Outcome (World U) (Unit {0})) (b : Bool) (s s' : Managed U)
      → with_delegate env (λ w. o) s ≡ ok b s'
      → s'.handles ≡ s.handles + (if b then 0 else 2)
  delegate_handles (ok t w) b s s' e = ground arith
  delegate_handles (fail c w) b s s' e = ground arith
  delegate_handles crash b s s' e = ground arith
  delegate_handles stuck b s s' e = ground arith

  -- SendFile and ReceiveFile of UFT::DotNET::UFTSession with a delegate, where they return: as
  -- many GCHandles are held as before if the answer is true, and two more if it is false.
  pub managed_reporting_leaks :
      (source destination : List ℕ) (b b' : Bool) (s s₁ s₂ : Managed U)
      → managed_send_reporting env source destination s ≡ ok b s₁
      → managed_receive_reporting env source destination s ≡ ok b' s₂
      → (s₁.handles ≡ s.handles + (if b then 0 else 2))
        × (s₂.handles ≡ s.handles + (if b' then 0 else 2))
  unfolding managed_send_reporting managed_receive_reporting
  managed_reporting_leaks source destination b b' s s₁ s₂ e f = (
    delegate_handles (send_file env (c_string source) (c_string destination) true s.world) b s s₁ e,
    delegate_handles (receive_file env (c_string source) (c_string destination) true s.world) b' s
        s₂ f,
  )
