-- ===== src/Client/Laws.antt =====
-- What UFTClient::Connect of UFT/UFTClient.hpp leaves behind.
use uft.Prelude.{ℕ, ◌+◌, ◌<◌, ◌^◌, ◌≡◌, arith, Bool, false, ◌||◌, ◌&&◌, ok}
use uft.World.{World, Env}
use uft.Socket.Lifecycle.{IsSound}
use uft.Client.{connect_client}

module _ {U : Type 0} (env : Env U) where
  -- UFTClient::Connect on a sound socket, `others` being less than 2 ^ 64 - 1, where it returns:
  -- the socket is sound, it is connected exactly if the answer is true, it is open if it was or if
  -- the answer is true, so a socket that this call opened is closed again on failure, and where
  -- the answer is true it does not block.
  pub connect_client-IsSound :
      (others host port : ℕ) (b : Bool) (w w' : World U)
      → others + 1 < 2 ^ 64
      → IsSound others w
      → connect_client env host port w ≡ ok b w'
      → IsSound others w'
        × (w'.sock.is_connected ≡ b)
        × (w'.sock.is_open ≡ (b || w.sock.is_open))
        × ((b && w'.sock.is_blocking) ≡ false)
  unfolding connect_client
  connect_client-IsSound others host port b w w' h s e = ground arith

  pub connect_client-unlocked :
      (host port : ℕ) (b : Bool) (w w' : World U)
      → connect_client env host port w ≡ ok b w'
      → w'.sock.io_locked ≡ w.sock.io_locked
  unfolding connect_client
  connect_client-unlocked host port b w w' e = ground arith
