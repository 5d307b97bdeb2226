-- ===== src/Client.antt =====
-- UFT/UFTClient.hpp: UFTClient::Connect over the socket.
pub mod Laws
use uft.Prelude.{ℕ, Bool, true, false, not, Program, pure, ◌>>=◌, ◌>>◌, modify, assert}
use uft.World.{World, Env, get_sock}
use uft.Socket.{open_socket, connect, set_blocking, disconnect, close}

module _ {U : Type 0} (env : Env U) where
  -- Opens the socket where it is not open.
  abbrev pub ensure_open : Bool → Program (World U) Bool
  ensure_open was_open = elim was_open [ true ↦ pure true | false ↦ open_socket env ]

  -- Closes the socket where this call had opened it.
  abbrev pub undo_open : Bool → Program (World U) (Unit {0})
  undo_open was_open = elim was_open [ true ↦ pure tt | false ↦ modify (close env) ]

  unfoldable pub connect_client : ℕ → ℕ → Program (World U) Bool
  unfolding open_socket connect set_blocking disconnect close
  connect_client host port = do
    c ← get_sock
    assert (not c.is_connected)
    opened ← ensure_open c.is_open
    elim opened [
      | false ↦ pure false
      | true ↦ do
        connected ← connect env host port
        elim connected [
          | false ↦ undo_open c.is_open >> pure false
          | true ↦ do
            set ← set_blocking env false
            elim set [
              | true ↦ pure true
              | false ↦ do modify (disconnect env); undo_open c.is_open; pure false
            ]
        ]
    ]
