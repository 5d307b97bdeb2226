-- ===== src/Listener.antt =====
-- UFT/UFTListener.hpp: a listener over its socket. A session is known by the Context of its socket.
pub mod Laws
use uft.Prelude.{
  ℕ, Bool, true, false, not, Program, pure, ◌>>=◌, ◌>>◌, modify, assert, if◌then◌else◌,
}
use uft.World.{World, Env, Context, get_sock}
use uft.Socket.{open_socket, listen, set_blocking, close, accept, with_socket}
use uft.Session.Packet.{disconnect}

module _ {U : Type 0} (env : Env U) where
  -- Listen: a socket that does not become blocking still listens.
  unfoldable pub start_listening : ℕ → ℕ → ℕ → Program (World U) Bool
  unfolding open_socket listen set_blocking close
  start_listening host port backlog = do
    c ← get_sock
    assert (not c.is_listening)
    opened ← open_socket env
    elim opened [
      | false ↦ pure false
      | true ↦ do
        listening ← listen env host port backlog
        elim listening [
          | false ↦ modify (close env) >> pure false
          | true ↦ set_blocking env true >> pure true
        ]
    ]

  -- Close
  unfoldable pub stop_listening : World U → World U
  unfolding close
  stop_listening w = if w.sock.is_open then close env w else w

  -- session.Disconnect(), where the session is connected.
  abbrev pub drop_session : Context → Program (World U) Context
  drop_session c = elim c.is_connected [
    | false ↦ pure c
    | true ↦ do (_, c') ← with_socket env c (modify (disconnect env)); pure c'
  ]

  -- Accept: the session's Context comes back with the answer.
  unfoldable pub accept_session : Context → Program (World U) (Bool × Context)
  unfolding disconnect accept set_blocking
  accept_session c = do
    own ← get_sock
    assert own.is_listening
    c₁ ← drop_session c
    (accepted, c₂) ← accept env c₁
    elim accepted [
      | false ↦ pure (false, c₂)
      | true ↦ with_socket env c₂ (set_blocking env own.is_blocking)
    ]
