-- ===== src/Socket/Breaking.antt =====
-- The transfer loops of UFT/UFTSocket.hpp over a connection that may end or fail at any call.
use uft.Prelude.{
  ℕ, ◌≤◌, ◌<◌, ◌≡◌, ◌≢◌, Bool, true, false, List, [], ◌++◌, length, take, Option, none, some, ok,
}
use uft.World.{
  int32, World, Env, Udt, Sent, sent, send_again, send_error, Received, received, recv_again,
  recv_error,
}
use uft.Socket.{close, disconnect}
use uft.Socket.Delivery.{Queues}
use uft.Socket.Transfer.{send_loop, receive_loop}

-- A send takes a first part of its bytes, which may be none, or is told to wait, or fails.
abbrev pub MayTake : {U : Type 0} → Queues U → List ℕ → U → Sent × U → Type 0
MayTake q xs u (sent n, v) =
    (n ≤ length xs) × (q.outgoing v ≡ q.outgoing u ++ take n xs) × (q.waits v ≤ q.waits u)
MayTake q xs u (send_again, v) = (q.outgoing v ≡ q.outgoing u) × (q.waits v < q.waits u)
MayTake q xs u (send_error, v) = q.outgoing v ≡ q.outgoing u

-- A receive gives a first part of what has come, which may be nothing, or is told to wait, or fails.
abbrev pub MayGive : {U : Type 0} → Queues U → ℕ → U → Received × U → Type 0
MayGive q n u (received xs, v) =
    (length xs ≤ n) × (q.incoming u ≡ xs ++ q.incoming v) × (q.waits v ≤ q.waits u)
MayGive q n u (recv_again, v) = (q.incoming v ≡ q.incoming u) × (q.waits v < q.waits u)
MayGive q n u (recv_error, v) = q.incoming v ≡ q.incoming u

-- A UDT socket that may break.
pub record Brittle {U : Type 0} (udt : Udt U) : Type 0 where
  pub queues : Queues U
  pub takes :
      (h : ℕ) (xs : List ℕ) (u : U)
      → xs ≢ []
      → MayTake queues xs u (udt.send h xs (int32 (length xs)) u)
  pub gives : (h n : ℕ) (u : U) → 0 < n → MayGive queues n u (udt.recv h (int32 n) u)

-- How a loop ends: with every byte, at the connection's end, or after a failed call.
pub data End : Type 0 where
  complete ended failed : End

abbrev pub is_complete : End → Bool
is_complete complete = true
is_complete ended = false
is_complete failed = false

-- What is left over.
abbrev pub LeftOver : End → List ℕ → Type 0
LeftOver complete zs = zs ≡ []
LeftOver ended zs = zs ≢ []
LeftOver failed zs = zs ≢ []

-- The answer of ReceiveAll.
abbrev pub answer : End → List ℕ → Option (List ℕ)
answer complete ys = some ys
answer ended ys = none
answer failed ys = none

-- How many bytes have come in.
abbrev pub Filled : End → ℕ → ℕ → Type 0
Filled complete n size = n ≡ size
Filled ended n size = n < size
Filled failed n size = n < size

module _ {U : Type 0} (env : Env U) (brittle : Brittle env.udt) where
  open brittle use {queues.{incoming, outgoing, waits}}

  -- The socket is as it was, or it was closed after a failed call.
  abbrev pub left : End → World U → U → World U
  left complete w v = record w { net = v }
  left ended w v = record w { net = v }
  left failed w v = close env (disconnect env (record w { net = v }))

  abbrev Sending : ℕ → List ℕ → World U → Type 0
  Sending fuel xs w =
      (e : End) × (v : U) × (ys : List ℕ) × (zs : List ℕ) × (send_loop env fuel xs w
        ≡ ok (is_complete e) (left e w v))
      × (xs ≡ ys ++ zs)
      × (outgoing v ≡ outgoing w.net ++ ys)
      × LeftOver e zs

  abbrev Receiving : ℕ → ℕ → List ℕ → World U → Type 0
  Receiving fuel size acc w =
      (e : End) × (v : U) × (ys : List ℕ) × (receive_loop env fuel size acc w
        ≡ ok (answer e (acc ++ ys)) (left e w v))
      × (incoming w.net ≡ ys ++ incoming v)
      × Filled e (length ys) size
