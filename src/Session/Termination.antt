-- ===== src/Session/Termination.antt =====
-- UFT/UFTSocket.hpp and UFT/UFTSession.hpp: the transfer loops and ReadNextPacket over a library that
-- has only so much left to give.
pub mod Receiving
pub mod Packets
pub mod Methods
use uft.Prelude.{
  ℕ, zero, suc, ◌+◌, ◌-◌, ◌≤◌, ◌<◌, ◌^◌, ◌≡◌, refl, arith, Bool, true, false, List, [], ◌∷◌, ◌++◌,
  length, drop, length-drop, Option, none, some, Outcome, ok, fail, crash, stuck, Program, pure,
  ◌>>=◌,
}
use uft.World.{
  int32, World, Env, Udt, Sent, sent, send_again, send_error, Received, received, recv_again,
  recv_error,
}
use uft.Socket.{send, receive, close, disconnect, udt_cleanup}
use uft.Socket.Transfer.{
  Trial, trial, lost, would_block, all_of, send_loop, send_all, receive_loop, receive_all,
  try_receive_all,
}

-- A send does not make more of what is left, and a wait makes less of it.
abbrev pub SendSpends : {U : Type 0} → (U → ℕ) → U → Sent × U → Type 0
SendSpends left u (sent n, v) = left v ≤ left u
SendSpends left u (send_again, v) = left v < left u
SendSpends left u (send_error, v) = left v ≤ left u

-- Each byte that comes in was left, and a wait makes less of it.
abbrev pub ReceiveSpends : {U : Type 0} → (U → ℕ) → U → Received × U → Type 0
ReceiveSpends left u (received xs, v) = length xs + left v ≤ left u
ReceiveSpends left u (recv_again, v) = left v < left u
ReceiveSpends left u (recv_error, v) = left v ≤ left u

-- A library with a bound on the bytes that the peer will still send and the times it will still make
-- somebody wait.
pub record Exhaustible {U : Type 0} (udt : Udt U) : Type 0 where
  pub left : U → ℕ
  pub send_spends : (h : ℕ) (xs : List ℕ) (n : ℕ) (u : U) → SendSpends left u (udt.send h xs n u)
  pub receive_spends : (h n : ℕ) (u : U) → ReceiveSpends left u (udt.recv h n u)
  pub close_spends : (h : ℕ) (u : U) → left (udt.close h u) ≤ left u
  pub cleanup_spends : (u : U) → left (udt.cleanup u) ≤ left u

module _ {U : Type 0} (env : Env U) (exhaustible : Exhaustible env.udt) where
  open exhaustible use {left}

  -- A socket's answer ends with at most `b` left.
  abbrev pub Sends : ℕ → Outcome (World U) Bool → Type 0
  Sends b (ok a w) = left w.net ≤ b
  Sends b (fail c w) = ⊥
  Sends b crash = Unit
  Sends b stuck = ⊥

  Sends-more : (b c : ℕ) (o : Outcome (World U) Bool) → b ≤ c → Sends b o → Sends c o
  Sends-more b c (ok a w) l h = omega arith
  Sends-more b c (fail k w) l h = h
  Sends-more b c crash l h = h
  Sends-more b c stuck l h = h

  pub broken-left :
      (w : World U) (u : U)
      → left u ≤ left w.net
      → left (close env (disconnect env (record w { net = u }))).net ≤ left w.net
  unfolding close disconnect udt_cleanup
  broken-left w u l =
      let c = exhaustible.close_spends w.sock.handle u in
      let d = exhaustible.cleanup_spends u in
      let e = exhaustible.cleanup_spends (env.udt.close w.sock.handle u) in ground arith

  abbrev pub Sending : ℕ → List ℕ → World U → Type 0
  Sending fuel xs w =
      (o : Outcome (World U) Bool) × (send_loop env fuel xs w ≡ o) × Sends (left w.net) o

  send_step :
      (fuel x : ℕ) (rest : List ℕ) (w : World U) (r : Sent × U)
      → w.sock.is_open ≡ true
      → w.sock.is_connected ≡ true
      → env.udt.send w.sock.handle (x ∷ rest) (int32 (length (x ∷ rest))) w.net ≡ r
      → SendSpends left w.net r
      → ((ys : List ℕ) (u : U)
          → length ys + left u < length (x ∷ rest) + left w.net
          → Sending fuel ys (record w { net = u }))
      → Sending (suc fuel) (x ∷ rest) w
  unfolding send_loop
  send_step fuel x rest w (sent zero, u) o c e l next =
      (ok false (record w { net = u }), ground arith, l)
  send_step fuel x rest w (sent (suc n), u) o c e l next =
      let (a, run, s) =
        next (drop (suc n) (x ∷ rest)) u (omega (arith, length-drop (suc n) (x ∷ rest))) in
      (a, ground arith, Sends-more (left u) (left w.net) a l s)
  send_step fuel x rest w (send_again, u) o c e l next =
      let (a, run, s) = next (x ∷ rest) u (omega arith) in
      (a, ground arith, Sends-more (left u) (left w.net) a (omega arith) s)
  send_step fuel x rest w (send_error, u) o c e l next = (
    ok false (close env (disconnect env (record w { net = u }))),
    ground arith,
    broken-left w u l,
  )

  pub send_loop_ends :
      (fuel : ℕ) (xs : List ℕ) (w : World U) (b c : Bool)
      → w.sock.is_open ≡ b
      → w.sock.is_connected ≡ c
      → length xs + left w.net < fuel
      → Sending fuel xs w
  unfolding send_loop
  send_loop_ends zero xs w b c o p h = absurd (omega arith)
  send_loop_ends (suc fuel) [] w b c o p h = (ok true w, refl, omega arith)
  send_loop_ends (suc fuel) (x ∷ rest) w b false o p h = (ok false w, ground arith, omega arith)
  send_loop_ends (suc fuel) (x ∷ rest) w false true o p h = (crash, ground arith, tt)
  send_loop_ends (suc fuel) (x ∷ rest) w true true o p h =
      send_step fuel x rest w _ o p refl
        (exhaustible.send_spends w.sock.handle (x ∷ rest) (int32 (length (x ∷ rest))) w.net)
        λ ys u less. send_loop_ends fuel ys (record w { net = u }) true true o p (omega arith)
