-- ===== src/Programs/ServerExits.antt =====
-- UFT/uft_server.cpp: the references to UDT that each exit of the server leaves.
use uft.Prelude.{
  ℕ, ◌+◌, ◌^◌, ◌<◌, ◌≤◌, ◌≡◌, refl, arith, Bool, true, false, List, [], Option, none, some, ◌⊎◌,
  inl, inr, ok, fail, crash, stuck, Outcome, pure, modify, ◌>>=◌, ◌>>◌,
}
use uft.World.{World, Env, Context}
use uft.Listener.{start_listening, accept_session, stop_listening}
use uft.Listener.Laws.{start_listening-IsSound}
use uft.CmdLineArgs.{Args, parse_args}
use uft.Programs.{ℤ, negsuc, Libc}
use uft.Programs.Laws.{started}
use uft.Programs.UftServer.{ServerArgs, server_args, run_session, run_server, server_main}
use uft.Session.{c_string}
use uft.Socket.{new_context, set_timeout}
use uft.Socket.Lifecycle.{count}
use uft.Programs.SessionExits.{
  least_open, most_open, Leaves, accept_session_leaves, stop_listening-refs, after_timeout,
}

module _ {U : Type 0} (env : Env U) (libc : Libc) where
  -- From Accept on, the listener being open.
  after_accept :
      (a : ServerArgs) (z : ℤ) (w w' : World U) (o : Outcome (World U) (Bool × Context))
      (others : ℕ)
      → others + 2 < 2 ^ 64
      → w.sock.is_open ≡ true
      → w.refs ≡ others + 1
      → accept_session env new_context w ≡ o
      → (do
        (accepted, session) ← (λ (w : World U). o)
        modify (stop_listening env)
        elim accepted [ false ↦ pure (negsuc 4) | true ↦ run_session env libc a.timeout session ])
          w
        ≡ ok z w'
      → Leaves env libc others z w'
  after_accept a z w w' (ok (true, c) w₂) others h p r s e =
      let (same, refs, quiet, unlocked, opened, connected) =
        accept_session_leaves env libc others true c w w₂ h (ground arith) s in
      let left =
        stop_listening-refs env libc others w₂ h (ground arith) (count c.is_open) (ground arith)
          (ground arith) in
      after_timeout env libc a.timeout c z (stop_listening env w₂) w'
        (set_timeout env a.timeout (record (stop_listening env w₂) { sock = c })) others
        (omega arith)
        (record {
          holds = record {
            counted = left;
            connected_open = connected;
            listening_open = ground arith;
            exclusive = ground arith;
          };
          unlocked = unlocked;
        })
        opened refl e
  after_accept a z w w' (ok (false, c) w₂) others h p r s e =
      let (same, refs, quiet, unlocked, opened, connected) =
        accept_session_leaves env libc others false c w w₂ h (ground arith) s in
      let left =
        stop_listening-refs env libc others w₂ h (ground arith) (count c.is_open) (ground arith)
          (ground arith) in
      ground arith
  after_accept a z w w' (fail k w₂) others h p r s e = ground arith
  after_accept a z w w' crash others h p r s e = ground arith
  after_accept a z w w' stuck others h p r s e = ground arith

  -- From Listen on.
  after_listen :
      (a : ServerArgs) (address : ℕ) (z : ℤ) (w w' : World U) (o : Outcome (World U) Bool)
      → w.refs + 2 < 2 ^ 64
      → libc.inet_pton (c_string a.local_host) ≡ some address
      → start_listening env (libc.ntohl address) a.local_port 1 (started w) ≡ o
      → run_server env libc a w ≡ ok z w'
      → Leaves env libc w.refs z w'
  unfolding run_server
  after_listen a address z w w' (ok b w₁) h i s e =
      let (sound, listening, opened) =
        start_listening-IsSound env w.refs (libc.ntohl address) a.local_port 1 b (started w) w₁
          (omega arith)
          (record {
            counted = omega arith;
            connected_open = refl;
            listening_open = refl;
            exclusive = refl;
          })
          s in
      let refs = sound.counted in
      elim b
          as (λ b.
            start_listening env (libc.ntohl address) a.local_port 1 (started w) ≡ ok b w₁
            → w₁.sock.is_open ≡ b
            → Leaves env libc w.refs z w') [
              | true ↦ λ s p.
                  after_accept a z w₁ w' (accept_session env new_context w₁) w.refs h p
                    (ground arith) refl (ground arith)
              | false ↦ λ s p. ground arith
            ]
        s opened
  after_listen a address z w w' (fail k w₁) h i s e = ground arith
  after_listen a address z w w' crash h i s e = ground arith
  after_listen a address z w w' stuck h i s e = ground arith

  after_address :
      (o : Option ℕ) (a : ServerArgs) (z : ℤ) (w w' : World U)
      → w.refs + 2 < 2 ^ 64
      → libc.inet_pton (c_string a.local_host) ≡ o
      → run_server env libc a w ≡ ok z w'
      → Leaves env libc w.refs z w'
  unfolding run_server
  after_address none a z w w' h i e = ground arith
  after_address (some address) a z w w' h i e =
      after_listen a address z w w'
        (start_listening env (libc.ntohl address) a.local_port 1 (started w)) h i refl e

  server_args-early : (args : Args) (z : ℤ) → server_args libc args ≡ inl z → z ≡ negsuc 0
  unfolding server_args
  server_args-early args z e = ground arith

  after_args :
      (r : ℤ ⊎ ServerArgs) (args : Args) (argv : List (List ℕ)) (z : ℤ) (w w' : World U)
      → w.refs + 2 < 2 ^ 64
      → parse_args argv [] ≡ some args
      → server_args libc args ≡ r
      → server_main env libc argv w ≡ ok z w'
      → Leaves env libc w.refs z w'
  unfolding server_main
  after_args (inl k) args argv z w w' h p c e =
      let early = server_args-early args k c in ground arith
  after_args (inr a) args argv z w w' h p c e =
      after_address (libc.inet_pton (c_string a.local_host)) a z w w' h refl (ground arith)

  after_parse :
      (args : Option Args) (argv : List (List ℕ)) (z : ℤ) (w w' : World U)
      → w.refs + 2 < 2 ^ 64
      → parse_args argv [] ≡ args
      → server_main env libc argv w ≡ ok z w'
      → Leaves env libc w.refs z w'
  unfolding server_main
  after_parse none argv z w w' h p e = ground arith
  after_parse (some args) argv z w w' h p e =
      after_args (server_args libc args) args argv z w w' h p refl e

  -- uft_server, where it exits, with whatever code, whatever the library, the file system and the
  -- peer do, fewer than 2 ^ 64 - 2 references to UDT being held: the references are as many as
  -- before, but for the code -6, where there is one more, and -5, where there may be one more.
  pub server_main_leaves :
      (argv : List (List ℕ)) (z : ℤ) (w w' : World U)
      → w.refs + 2 < 2 ^ 64
      → server_main env libc argv w ≡ ok z w'
      → (w.refs + least_open z ≤ w'.refs) × (w'.refs ≤ w.refs + most_open z)
  server_main_leaves argv z w w' h e = after_parse (parse_args argv []) argv z w w' h refl e
