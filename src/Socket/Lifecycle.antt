-- ===== src/Socket/Lifecycle.antt =====
-- UFT/UFTSocket.cpp: what a socket's life does to UDT_Init_RefCount, to the library's handles, and
-- to the four flags of the Context.
use uft.Prelude.{
  ℕ, ◌+◌, ◌<◌, ◌≤◌, ◌^◌, ◌≡◌, arith, Bool, true, false, not, ◌||◌, ◌&&◌, List, [], ◌∷◌, Outcome, ok,
  fail, crash, stuck, Program, pure, ◌>>◌, modify,
}
use uft.World.{World, Context, Env, udt_sndsyn, udt_rcvsyn}
use uft.Socket.{
  set_blocking, set_timeout, disconnect, close, open_socket, listen, accept, connect, send, receive,
}

abbrev pub count : Bool → ℕ
count true = 1
count false = 0

-- A reference for each open socket, `others` of them held elsewhere in the process; a socket that
-- is connected or listens is open, and none does both.
pub record IsSound {U : Type 0} (others : ℕ) (w : World U) : Type 0 where
  pub counted : w.refs ≡ others + count w.sock.is_open
  pub connected_open : (not w.sock.is_connected || w.sock.is_open) ≡ true
  pub listening_open : (not w.sock.is_listening || w.sock.is_open) ≡ true
  pub exclusive : (w.sock.is_connected && w.sock.is_listening) ≡ false

-- What holds of the state in which a program ends, with a value or an error code; a failed assertion
-- ends the process. It does not wait for ever.
abbrev pub Ends : {W A : Type 0} → (W → Type 0) → Outcome W A → Type 0
Ends P (ok a w) = P w
Ends P (fail c w) = P w
Ends P crash = Unit
Ends P stuck = ⊥

-- The calls of a socket's public methods.
pub data Method : Type 0 where
  open_call close_call disconnect_call : Method
  set_blocking_call : Bool → Method
  set_timeout_call : ℕ → Method
  listen_call : ℕ → ℕ → ℕ → Method
  connect_call : ℕ → ℕ → Method
  send_call : List ℕ → Method
  receive_call : ℕ → Method

module _ {U : Type 0} (env : Env U) where
  unfoldable pub perform : Method → Program (World U) (Unit {0})
  perform open_call = open_socket env >> pure tt
  perform close_call = modify (close env)
  perform disconnect_call = modify (disconnect env)
  perform (set_blocking_call b) = set_blocking env b >> pure tt
  perform (set_timeout_call n) = set_timeout env n >> pure tt
  perform (listen_call host port backlog) = listen env host port backlog >> pure tt
  perform (connect_call host port) = connect env host port >> pure tt
  perform (send_call xs) = send env xs >> pure tt
  perform (receive_call n) = receive env n >> pure tt

  unfoldable pub perform_all : List Method → Program (World U) (Unit {0})
  perform_all [] = pure tt
  perform_all (m ∷ ms) = perform m >> perform_all ms

  -- Every method keeps the flags sound and the counter exact, on every way out.
  pub perform-IsSound :
      (others : ℕ) (m : Method) (w : World U)
      → others + 1 < 2 ^ 64
      → IsSound others w
      → Ends (IsSound others) (perform m w)
  unfolding perform open_socket close disconnect set_blocking set_timeout listen connect send
      receive
  perform-IsSound others open_call w h s = ground arith
  perform-IsSound others close_call w h s = ground arith
  perform-IsSound others m w h s = ground arith

  Ends-then :
      (P : World U → Type 0) (o : Outcome (World U) (Unit {0})) (k : Program (World U) (Unit {0}))
      (w : World U)
      → Ends P o
      → ((w' : World U) → P w' → Ends P (k w'))
      → Ends P (◌>>◌ {W = World U} (λ _. o) k w)
  Ends-then P (ok a w') k w h next = next w' h
  Ends-then P (fail c w') k w h next = h
  Ends-then P crash k w h next = tt
  Ends-then P stuck k w h next = absurd h

  -- Any sequence of calls of Open, Close, Disconnect, SetBlocking, SetTimeout, Listen, Connect,
  -- Send and Receive on a sound socket, whatever the library answers: it does not wait for ever,
  -- and unless an assertion fails, the socket it ends with is sound, so the counter of UDT_Init is
  -- exact and a socket that is connected or listens is open. `others`, the references held
  -- elsewhere, are less than 2 ^ 64 - 1.
  pub perform_all-IsSound :
      (others : ℕ) (ms : List Method) (w : World U)
      → others + 1 < 2 ^ 64
      → IsSound others w
      → Ends (IsSound others) (perform_all ms w)
  unfolding perform_all
  perform_all-IsSound others [] w h s = s
  perform_all-IsSound others (m ∷ ms) w h s =
      Ends-then (IsSound others) (perform m w) (perform_all ms) w (perform-IsSound others m w h s)
        λ w' s'. perform_all-IsSound others ms w' h s'

  -- An Accept that answers true, where the counter was exact for both sockets and `others`, less
  -- than 2 ^ 64 - 2, leaves the listener's Context as it was, makes the other socket open,
  -- connected and not listening, with the listener's blocking mode and timeout, and leaves the
  -- counter exact.
  pub accept_connects :
      (others : ℕ) (c c' : Context) (w w' : World U)
      → others + 2 < 2 ^ 64
      → w.refs ≡ others + count w.sock.is_open + count c.is_open
      → accept env c w ≡ ok (true, c') w'
      → (w'.sock ≡ w.sock)
        × (w'.refs ≡ others + count w'.sock.is_open + count c'.is_open)
        × (c'.is_open ≡ true)
        × (c'.is_connected ≡ true)
        × (c'.is_listening ≡ false)
        × (c'.is_blocking ≡ w.sock.is_blocking)
        × (c'.timeout ≡ w.sock.timeout)
  unfolding accept
  accept_connects others c c' w w' h r e = ground arith

  -- An Accept that answers false leaves both Contexts and the counter as they were.
  pub accept_refuses :
      (c c' : Context) (w w' : World U)
      → accept env c w ≡ ok (false, c') w'
      → (w'.sock ≡ w.sock) × (w'.refs ≡ w.refs) × (c' ≡ c)
  unfolding accept
  accept_refuses c c' w w' e = ground arith

  -- Close of a socket that is open and not connected, while the counter is at least 2 and below 2
  -- ^ 64, leaves the library's state as it was, the handle open there, and the socket counts as
  -- closed.
  pub close_keeps_handle :
      (w : World U)
      → w.sock.is_open ≡ true
      → w.sock.is_connected ≡ false
      → 2 ≤ w.refs
      → w.refs < 2 ^ 64
      → ((close env w).net ≡ w.net) × ((close env w).sock.is_open ≡ false)
  unfolding close
  close_keeps_handle w o c h k = ground arith

  -- Connect on an open, non-blocking socket that is neither connected nor listening, where the
  -- library lets itself be set to blocking, connects, and then refuses the first option that sets
  -- it back: the answer is false, the library's state is the one after the refused call, with the
  -- handle not closed, and the socket counts as blocking.
  pub connect_leaves_connection :
      (host port : ℕ) (w : World U) (u₁ u₂ u₃ u₄ : U)
      → w.sock.is_open ≡ true
      → w.sock.is_connected ≡ false
      → w.sock.is_listening ≡ false
      → w.sock.is_blocking ≡ false
      → env.udt.setsockopt w.sock.handle udt_sndsyn 1 w.net ≡ (true, u₁)
      → env.udt.setsockopt w.sock.handle udt_rcvsyn 1 u₁ ≡ (true, u₂)
      → env.udt.connect w.sock.handle (record { host = host; port = port }) u₂ ≡ (true, u₃)
      → env.udt.setsockopt w.sock.handle udt_sndsyn 0 u₃ ≡ (false, u₄)
      → connect env host port w
        ≡ ok false (record w { net = u₄; sock = record (w.sock) { is_blocking = true } })
  unfolding connect
  connect_leaves_connection host port w u₁ u₂ u₃ u₄ o c l b e₁ e₂ e₃ e₄ = ground arith
