-- ===== src/Session/Serving.antt =====
-- Update and OnUpdate of UFT/UFTSession.hpp, the lock around the public methods, and a packet that is
-- read when it has come.
use uft.Prelude.{
  ℕ, suc, ◌+◌, ◌^◌, ◌≤◌, ◌<◌, ◌≡◌, sym, ap, ◌∙◌, arith, Bool, true, false, List, [], ◌∷◌, ◌++◌,
  append_assoc, length, ok, fail, stuck, Outcome, Program, finally, ◌>>=◌, if◌then◌else◌,
  network_not_connected,
}
use uft.World.{World, Env}
use uft.Files.{Files}
use uft.BitConverter.Order.{big_endian, length-big_endian, network_order64}
use uft.ByteBuffer.{ByteBuffer}
use uft.ByteBuffer.Laws.{unread}
use uft.Session.{OpCode, op_byte}
use uft.Session.Packet.{read_next_packet, read_header, header_size}
use uft.Session.Transmit.{handle_packet, update_loop, when_connected, guarded}
use uft.Session.Wire.{packet}
use uft.Session.Reading.{op_of_header, read_payload_lem, got_both, left_over}
use uft.Session.Ends.{Connected}
use uft.Socket.{unlock_io}
use uft.Socket.Delivery.{Link, IsUp, at, GotAll}
use uft.Socket.Polling.{Idles, try_receive_all_lem, try_receive_all-idle}

module _ {U : Type 0} (env : Env U) where
  -- While a public method runs.
  abbrev pub locked : World U → World U
  locked w = record w { sock = record (w.sock) { io_locked = true } }

  -- The lock guard on a free lock.
  pub guarded_lem :
      {A : Type 0} (m : Program (World U) A) (o : Outcome (World U) A) (w : World U)
      → w.sock.io_locked ≡ false
      → m (locked w) ≡ o
      → guarded env m w ≡ finally {W = World U} (λ _. o) (unlock_io env) w
  guarded_lem m o w h e =
      ap
        (λ (b : Bool).
          ◌>>=◌ {W = World U} (λ t. if b then stuck else ok tt (locked t))
            (λ _. finally m (unlock_io env)) w)
        h
      ∙ ap (λ (o : Outcome (World U) _). finally {W = World U} (λ _. o) (unlock_io env) w) e

  -- A public method on a free lock runs its body under the lock, and ends with the lock free.
  pub public_lem :
      {A : Type 0} (m : Program (World U) A) (a : A) (w : World U) (v : U) (r : List (ℕ × ℕ))
      (fs : Files)
      → w.sock.is_connected ≡ true
      → w.sock.io_locked ≡ false
      → m (locked w) ≡ ok a (record (locked w) { net = v; reports = r; files = fs })
      → when_connected env (guarded env m) w ≡ ok a (record w { net = v; reports = r; files = fs })
  public_lem m a w v r fs c h e =
      ap (λ (b : Bool). if b then guarded env m w else fail network_not_connected w) c
      ∙ guarded_lem m (ok a (record (locked w) { net = v; reports = r; files = fs })) w h e
      ∙ ap
          (λ (b : Bool). ok a (record w {
            sock = record (w.sock) { io_locked = b };
            net = v;
            reports = r;
            files = fs;
          }))
          (sym h)

  -- One packet, and on with what has come behind it.
  pub update_loop-next :
      (n : ℕ) (op : OpCode) (buffer : ByteBuffer) (w w₁ w₂ : World U)
      → read_next_packet env false w ≡ ok (op, buffer) w₁
      → handle_packet env op buffer w₁ ≡ ok tt w₂
      → update_loop env (suc n) w ≡ update_loop env n w₂
  unfolding update_loop
  update_loop-next n op buffer w w₁ w₂ e f = ground arith

module _ {U : Type 0} (env : Env U) (link : Link env.udt) where
  open link use {queues.{incoming, outgoing, waits}}

  pub Connected-locked : (w : World U) → Connected env link w → Connected env link (locked env w)
  Connected-locked w c = record {
    is_up = record {
      is_open = c.is_up.is_open;
      is_connected = c.is_up.is_connected;
      handle_eq = c.is_up.handle_eq;
    };
    healthy = c.healthy;
    enough = c.enough;
    offer_fits = c.offer_fits;
  }

  pub Connected-later :
      (w : World U) (u : U)
      → Connected env link w
      → waits u ≤ waits w.net
      → Connected env link (at env link w u)
  Connected-later w u c n =
      let enough = c.enough in
      let offers = c.offer_fits in
      record {
        is_up = c.is_up;
        healthy = c.healthy;
        enough = omega arith;
        offer_fits = omega arith;
      }

  pub Connected-onward :
      (w : World U) (u : U) (r : List (ℕ × ℕ)) (fs : Files)
      → Connected env link w
      → waits u ≤ waits w.net
      → Connected env link (record w { net = u; reports = r; files = fs })
  Connected-onward w u r fs c n =
      let later = Connected-later w u c n in
      record {
        is_up = record {
          is_open = later.is_up.is_open;
          is_connected = later.is_up.is_connected;
          handle_eq = later.is_up.handle_eq;
        };
        healthy = later.healthy;
        enough = later.enough;
        offer_fits = later.offer_fits;
      }

  pub poll_packet_lem :
      (op : OpCode) (p more : List ℕ) (w : World U)
      → IsUp env link w.sock
      → waits w.net ≡ 0
      → incoming w.net ≡ packet op p ++ more
      → length p < 2 ^ 31
      → header_size + length p < env.fuel
      → (v : U) × (read_next_packet env false w ≡ ok (op, unread [] p (length p)) (at env link w v))
        × GotAll env link (packet op p) w.net v
  unfolding read_next_packet read_header
  poll_packet_lem op p more w up z i h k =
      let head : List ℕ = op_byte op ∷ big_endian 8 (length p) in
      let count = length-big_endian 8 (length p) in
      let size : length head ≡ header_size = omega arith in
      let (u, run, (a, b, c)) =
        try_receive_all_lem env link head (p ++ more) w up (λ e. cc) z
          (i ∙ append_assoc head p more) (omega arith) (omega arith) in
      let left : incoming u ≡ p ++ more =
        left_over env link head (p ++ more) w.net u (a, b, c) (i ∙ append_assoc head p more) in
      let (v, run', moved) =
        read_payload_lem env link p more (at env link w u) up left h (omega arith) in
      let code = op_of_header op (big_endian 8 (length p)) in
      let size_read = (network_order64 (length p) (omega arith)).1 in
      (v, ground arith, got_both env link head p w.net u v (a, b, c) moved)

  -- Nothing has come: OnUpdate ends well.
  pub update_loop-idle :
      (n : ℕ) (w : World U)
      → IsUp env link w.sock
      → Idles env link
      → incoming w.net ≡ []
      → update_loop env (suc n) w ≡ ok tt w
  unfolding update_loop read_next_packet read_header
  update_loop-idle n w up idle i =
      let waiting = try_receive_all-idle env link header_size w up idle i in ground arith
