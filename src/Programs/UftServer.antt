-- ===== src/Programs/UftServer.antt =====
-- UFT/uft_server.cpp: the server's main.
use uft.Prelude.{
  ℕ, zero, suc, true, false, none, some, List, [], ◌⊎◌, inl, inr, Program, pure, ok, fail, crash,
  stuck, Code, ◌>>=◌, ◌>>◌, modify, codes,
}
use uft.World.{World, Env, Context, on_sock}
use uft.Listener.{start_listening, accept_session, stop_listening}
use uft.CmdLineArgs.{Args, try_get_value, to_u16, to_u32, parse_args}
use uft.Programs.{ℤ, pos, negsuc, Libc, or_exit}
use uft.Session.{c_string}
use uft.Session.Packet.{disconnect}
use uft.Session.Transmit.{update}
use uft.Socket.{new_context, set_timeout}

pub record ServerArgs : Type 0 where
  pub local_host : List ℕ
  pub local_port : ℕ
  pub timeout : ℕ

unfoldable pub server_args : Libc → Args → ℤ ⊎ ServerArgs
unfolding try_get_value
server_args libc args =
    or_exit (negsuc 0) (try_get_value (λ s. s) (codes "local-host") args) λ host.
      or_exit (negsuc 0) (try_get_value (to_u16 libc.strtoul) (codes "local-port") args) λ port.
        or_exit (negsuc 0) (try_get_value (to_u32 libc.strtoul) (codes "timeout") args)
          λ timeout. inr (record { local_host = host; local_port = port; timeout = timeout })

module _ {U : Type 0} (env : Env U) (libc : Libc) where
  -- while ((errorCode = session.Update()) == UFTSESSION_ERROR_CODE_SUCCESS)
  unfoldable pub serve_loop : ℕ → Program (World U) Code
  serve_loop zero w = stuck
  serve_loop (suc fuel) w = elim (update env w) [
    | ok a w' ↦ serve_loop fuel w'
    | fail c w' ↦ ok c w'
    | crash ↦ crash
    | stuck ↦ stuck
  ]

  -- From the accepted session on. The listener is closed by now, and its Context is not used again.
  unfoldable pub run_session : ℕ → Context → Program (World U) ℤ
  unfolding set_timeout disconnect
  run_session timeout session = do
    on_sock (λ _. session)
    set ← set_timeout env timeout
    elim set [
      | false ↦ pure (negsuc 5)
      | true ↦ do _ ← serve_loop env.fuel; modify (disconnect env); pure (pos 0)
    ]

  unfoldable pub run_server : ServerArgs → Program (World U) ℤ
  unfolding start_listening accept_session stop_listening
  run_server a = elim (libc.inet_pton (c_string a.local_host)) [
    | none ↦ pure (negsuc 1)
    | some address ↦ do
      on_sock (λ _. new_context)
      listening ← start_listening env (libc.ntohl address) a.local_port 1
      elim listening [
        | false ↦ pure (negsuc 3)
        | true ↦ do
          (accepted, session) ← accept_session env new_context
          modify (stop_listening env)
          elim accepted [ false ↦ pure (negsuc 4) | true ↦ run_session a.timeout session ]
      ]
  ]

  unfoldable pub server_main : List (List ℕ) → Program (World U) ℤ
  unfolding parse_args server_args
  server_main argv = elim (parse_args argv []) [
    | none ↦ λ w. crash
    | some args ↦ elim (server_args libc args) [ inl code ↦ pure code | inr a ↦ run_server a ]
  ]
