-- ===== src/Socket.antt =====
-- UFT/UFTSocket.cpp: the socket over UDT. Each method is a program on the world; `sock` there is
-- the Context. A method that answers a bool returns it.
pub mod Transfer
pub mod Lifecycle
pub mod Delivery
pub mod Polling
pub mod Breaking
use uft.Prelude.{
  ℕ, ◌+◌, ◌-◌, ◌*◌, ◌%◌, ◌^◌, Bool, true, false, not, ◌&&◌, List, length, ◌==◌, if◌then◌else◌,
  Option, none, some, [], Outcome, ok, stuck, Program, pure, ◌>>=◌, ◌>>◌, gets, modify, assert,
}
use uft.World.{
  int32, World, Context, Env, Udt, Address, SockOpt, udt_sndsyn, udt_rcvsyn, udt_sndtimeo,
  udt_rcvtimeo, Sent, sent, send_again, send_error, Received, received, recv_again, recv_error,
  invalid_sock, udt_call, udt_do, on_sock, get_sock,
}

-- A new Context: 15 seconds, blocking, nothing open.
abbrev pub new_context : Context
new_context = record {
  is_open = false;
  is_blocking = true;
  is_connected = false;
  is_listening = false;
  timeout = 15 * 1000;
  handle = 0;
  io_locked = false;
  remote_port = 0;
  remote_address = 0;
}

-- The move constructor: the new socket takes the Context, and the old one gets a new one.
abbrev pub move_socket : Context → Context × Context
move_socket c = (c, new_context)

abbrev pub bool_word : Bool → ℕ
bool_word b = if b then 1 else 0

module _ {U : Type 0} (env : Env U) where
  open env use {udt}

  -- UDT_Init and UDT_Cleanup, on a counter of 64 bits.
  unfoldable pub udt_init : World U → World U
  udt_init w =
      let n = (w.refs + 1) % 2 ^ 64 in
      record w { refs = n; net = if n == 1 then udt.startup w.net else w.net }

  unfoldable pub udt_cleanup : World U → World U
  udt_cleanup w =
      let n = (w.refs + (2 ^ 64 - 1)) % 2 ^ 64 in
      record w { refs = n; net = if n == 0 then udt.cleanup w.net else w.net }

  abbrev setopt : SockOpt → ℕ → Program (World U) Bool
  setopt opt value w = udt_call (udt.setsockopt w.sock.handle opt value) w

  -- A pair of options is set on an open socket; the field changes when both calls succeed.
  abbrev set_both : SockOpt → SockOpt → ℕ → (Context → Context) → Program (World U) Bool
  set_both first second value change = do
    is_open ← gets (λ w. w.sock.is_open)
    elim is_open [
      | true ↦ do
        done ← setopt first value
        elim done [
          | true ↦ do
            done_too ← setopt second value
            elim done_too [ true ↦ on_sock change >> pure true | false ↦ pure false ]
          | false ↦ pure false
        ]
      | false ↦ on_sock change >> pure true
    ]

  unfoldable pub set_blocking : Bool → Program (World U) Bool
  set_blocking set =
      set_both udt_sndsyn udt_rcvsyn (bool_word set) (λ c. record c { is_blocking = set })

  unfoldable pub set_timeout : ℕ → Program (World U) Bool
  set_timeout milliseconds =
      set_both udt_sndtimeo udt_rcvtimeo milliseconds (λ c. record c { timeout = milliseconds })

  unfoldable pub disconnect : World U → World U
  disconnect w =
      if w.sock.is_connected
      then record w {
        net = udt.close w.sock.handle w.net;
        sock = record (w.sock) { is_connected = false };
      }
      else w

  unfoldable pub close : World U → World U
  unfolding disconnect udt_cleanup
  close w =
      if w.sock.is_open
      then (let w' = disconnect w in
          udt_cleanup
            (record w' { sock = record (w'.sock) { is_open = false; is_listening = false } }))
      else w

  abbrev set_handle : ℕ → Context → Context
  set_handle h c = record c { handle = h }

  abbrev set_open : Bool → Context → Context
  set_open b c = record c { is_open = b }

  -- SetBlocking(IsBlocking()) && SetTimeout(GetTimeout())
  unfoldable pub restore : Program (World U) Bool
  unfolding set_blocking set_timeout
  restore = do
    blocking ← gets (λ w. w.sock.is_blocking)
    done ← set_blocking blocking
    elim done [
      | true ↦ do timeout ← gets (λ w. w.sock.timeout); set_timeout timeout
      | false ↦ pure false
    ]

  unfoldable pub open_socket : Program (World U) Bool
  unfolding udt_init udt_cleanup restore
  open_socket = do
    is_open ← gets (λ w. w.sock.is_open)
    assert (not is_open)
    modify udt_init
    h ← udt_call udt.socket
    on_sock (set_handle h)
    elim (h == invalid_sock) [
      | true ↦ modify udt_cleanup >> pure false
      | false ↦ do
        on_sock (set_open true)
        done ← restore
        elim done [
          | true ↦ pure true
          | false ↦ do
            on_sock (set_open false)
            udt_do (udt.close h)
            modify udt_cleanup
            pure false
        ]
    ]

  unfoldable pub listen : ℕ → ℕ → ℕ → Program (World U) Bool
  listen host port backlog = do
    c ← get_sock
    assert c.is_open
    assert (not c.is_connected)
    assert (not c.is_listening)
    bound ← udt_call (udt.bind c.handle (record { host = host; port = port }))
    elim bound [
      | true ↦ do
        listening ← udt_call (udt.listen c.handle backlog)
        elim listening [
          | true ↦ on_sock (λ c. record c { is_listening = true }) >> pure true
          | false ↦ pure false
        ]
      | false ↦ pure false
    ]

  -- `with_socket c m` runs m on another socket and gives that one back.
  abbrev pub with_socket :
      {A : Type 0} → Context → Program (World U) A → Program (World U) (A × Context)
  with_socket c m = do
    own ← get_sock
    on_sock (λ _. c)
    a ← m
    c' ← get_sock
    on_sock (λ _. own)
    pure (a, c')

  abbrev accepted : Context → ℕ → Address → Context → Context
  accepted listener h address c = record c {
    is_open = true;
    is_blocking = listener.is_blocking;
    is_connected = true;
    is_listening = false;
    handle = h;
    timeout = listener.timeout;
    remote_port = address.port;
    remote_address = address.host;
  }

  -- Accept(socket): `c` is the other socket, and comes back with the answer.
  unfoldable pub accept : Context → Program (World U) (Bool × Context)
  unfolding close
  accept c = do
    own ← get_sock
    assert own.is_open
    assert own.is_listening
    h ← udt_call (udt.accept own.handle)
    elim (h == invalid_sock) [
      | true ↦ pure (false, c)
      | false ↦ do
        peer ← udt_call (udt.getpeername h)
        elim peer [
          | none ↦ udt_do (udt.close h) >> pure (false, c)
          | some address ↦ do
            (_, c') ← with_socket c (modify close)
            modify (λ w. record w { refs = (w.refs + 1) % 2 ^ 64 })
            pure (true, accepted own h address c')
        ]
    ]

  -- isBlocking || SetBlocking(set)
  abbrev unless_blocking : Bool → Bool → Program (World U) Bool
  unless_blocking was set = elim was [ true ↦ pure true | false ↦ set_blocking set ]

  unfoldable pub connect : ℕ → ℕ → Program (World U) Bool
  unfolding set_blocking disconnect
  connect remote_host remote_port = do
    c ← get_sock
    assert c.is_open
    assert (not c.is_connected)
    assert (not c.is_listening)
    ready ← unless_blocking c.is_blocking true
    elim ready [
      | false ↦ pure false
      | true ↦ do
        done ← udt_call (udt.connect c.handle (record { host = remote_host; port = remote_port }))
        elim done [
          | false ↦ pure false
          | true ↦ do
            restored ← unless_blocking c.is_blocking false
            elim restored [
              | false ↦ modify disconnect >> pure false
              | true ↦ do
                on_sock (λ c. record c {
                  is_connected = true;
                  remote_port = remote_port;
                  remote_address = remote_host;
                })
                pure true
            ]
        ]
    ]

  -- LockIO waits for ever where this thread holds the mutex already.
  abbrev pub lock_io : Program (World U) (Unit {0})
  lock_io w =
      if w.sock.io_locked
      then stuck
      else ok tt (record w { sock = record (w.sock) { io_locked = true } })

  abbrev pub unlock_io : World U → World U
  unlock_io w = record w { sock = record (w.sock) { io_locked = false } }

  -- What follows UDT::ERROR in Send and Receive.
  abbrev give_up : World U → World U
  give_up w = close (disconnect w)

  -- Send: `none` for -1, else the count; 0 after a failure.
  unfoldable pub send : List ℕ → Program (World U) (Option ℕ)
  unfolding disconnect close
  send xs = do
    c ← get_sock
    assert c.is_open
    assert c.is_connected
    answer ← udt_call (udt.send c.handle xs (int32 (length xs)))
    elim answer [
      | sent n ↦ pure (some n)
      | send_again ↦ pure none
      | send_error ↦ modify give_up >> pure (some 0)
    ]

  -- Receive: the bytes that are put into the buffer stand for their count.
  unfoldable pub receive : ℕ → Program (World U) (Option (List ℕ))
  unfolding disconnect close
  receive size = do
    c ← get_sock
    assert c.is_open
    assert c.is_connected
    answer ← udt_call (udt.recv c.handle (int32 size))
    elim answer [
      | received xs ↦ pure (some xs)
      | recv_again ↦ pure none
      | recv_error ↦ modify give_up >> pure (some [])
    ]
