-- ===== src/Programs/Serving.antt =====
-- UFT/uft_server.cpp as a whole: how it ends.
use uft.Prelude.{ℕ, ◌≡◌, arith, true, List, [], some, inr, ok, Code}
use uft.World.{World, Env, Context}
use uft.Listener.{start_listening, accept_session, stop_listening}
use uft.CmdLineArgs.{Args, parse_args}
use uft.Programs.{pos, Libc}
use uft.Programs.UftServer.{
  ServerArgs, server_args, serve_loop, run_session, run_server, server_main,
}
use uft.Session.{c_string}
use uft.Session.Packet.{disconnect}
use uft.Socket.{new_context, set_timeout}

-- The arguments and the calls with which the server reaches its loop: `w₁` is the state after
-- Listen, `w₂` after Accept, `w₃` after SetTimeout of the session.
pub record Accepts {U : Type 0} (env : Env U) (libc : Libc) (argv : List (List ℕ))
    (session : Context) (w w₁ w₂ w₃ : World U) : Type 0 where
  pub args : Args
  pub a : ServerArgs
  pub address : ℕ
  pub parsed : parse_args argv [] ≡ some args
  pub complete : server_args libc args ≡ inr a
  pub is_address : libc.inet_pton (c_string a.local_host) ≡ some address
  pub listens :
      start_listening env (libc.ntohl address) a.local_port 1 (record w { sock = new_context })
      ≡ ok true w₁
  pub accepts : accept_session env new_context w₁ ≡ ok (true, session) w₂
  pub sets :
      set_timeout env a.timeout (record (stop_listening env w₂) { sock = session }) ≡ ok true w₃

module _ {U : Type 0} (env : Env U) (libc : Libc) where
  -- uft_server with complete arguments, where Listen, Accept and SetTimeout answer true and the
  -- loop over Update ends within the fuel with any error code: it exits with 0 after the session's
  -- Disconnect.
  pub server_main_ends :
      (argv : List (List ℕ)) (session : Context) (c : Code) (w w₁ w₂ w₃ w₄ : World U)
      → Accepts env libc argv session w w₁ w₂ w₃
      → serve_loop env libc env.fuel w₃ ≡ ok c w₄
      → server_main env libc argv w ≡ ok (pos 0) (disconnect env w₄)
  unfolding server_main run_server run_session
  server_main_ends argv session c w w₁ w₂ w₃ w₄ s e =
      let p = s.parsed in
      let q = s.complete in
      let i = s.is_address in
      let l = s.listens in let k = s.accepts in let t = s.sets in ground arith
