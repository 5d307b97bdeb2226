-- ===== src/Programs/Exits.antt =====
-- UFT/uft_client.cpp: the references to UDT that each exit of the client leaves.
use uft.Prelude.{
  ℕ, ◌+◌, ◌^◌, ◌<◌, ◌≡◌, refl, arith, Bool, true, false, if◌then◌else◌, ◌==◌, List, [], Option,
  none, some, ◌⊎◌, inl, inr, ok, fail, crash, stuck, Outcome, pure, modify, ◌>>=◌, ◌>>◌, ◌≤◌,
  bytes_eq, codes,
}
use uft.Prelude.Keeps.{Stays, Keeps, Leads-pure, Leads-if}
use uft.World.{World, Env}
use uft.Client.{connect_client}
use uft.Client.Laws.{connect_client-IsSound, connect_client-unlocked}
use uft.CmdLineArgs.{Args, parse_args}
use uft.Programs.{ℤ, pos, negsuc, Libc}
use uft.Programs.UftClient.{ClientArgs, client_args, run_command, run_client, client_main}
use uft.Session.{c_string}
use uft.Session.Packet.{disconnect}
use uft.Session.Conduct.Methods.{
  Idle, settle-Rests, send_file-Rests, receive_file-Rests, get_files-Rests,
}
use uft.Session.Soundness.{Sound}
use uft.Session.Soundness.Idle.{sound_conduct}
use uft.Socket.{set_timeout, close}
use uft.Socket.Lifecycle.{IsSound, count}
use uft.Programs.Laws.{started}

-- How many sockets the exit code leaves open: -6 leaves the client connected.
abbrev pub left_open : ℤ → ℕ
left_open (pos n) = 0
left_open (negsuc n) = if n == 5 then 1 else 0

module _ {U : Type 0} (env : Env U) (libc : Libc) where
  run_command-Idle :
      (others : ℕ)
      → others + 1 < 2 ^ 64
      → (a : ClientArgs) → Keeps (Idle (Sound others)) (run_command env libc a)
  unfolding run_command
  run_command-Idle others few a =
      Leads-if (bytes_eq a.command (codes "send_file")) _ _
        (settle-Rests (sound_conduct env others few) 0 _ (
          send_file-Rests (sound_conduct env others few) 0 (omega arith) (c_string a.source)
            (c_string a.destination) true))
        (Leads-if (bytes_eq a.command (codes "receive_file")) _ _
          (settle-Rests (sound_conduct env others few) 0 _ (
            receive_file-Rests (sound_conduct env others few) 0 (omega arith) (c_string a.source)
              (c_string a.destination) true))
          (Leads-if (bytes_eq a.command (codes "get_file_list")) _ _
            (settle-Rests (sound_conduct env others few) 0 _
              (get_files-Rests (sound_conduct env others few) 0 (c_string a.path)))
            (Leads-pure tt)))

  pub connect_client-Idle :
      (host port : ℕ) (b : Bool) (w w' : World U)
      → w.refs + 1 < 2 ^ 64
      → connect_client env host port (started w) ≡ ok b w'
      → Idle (Sound w.refs) w' × (w'.sock.is_open ≡ b)
  connect_client-Idle host port b w w' h e =
      let sound : IsSound w.refs (started w) = record {
        counted = omega arith;
        connected_open = refl;
        listening_open = refl;
        exclusive = refl;
      } in
      let (s, connected, is_open, blocking) =
        connect_client-IsSound env w.refs host port b (started w) w' h sound e in
      let c = s.counted in
      let o = s.connected_open in
      let l = s.listening_open in
      let x = s.exclusive in
      (
        record {
          holds = record { counted = c; connected_open = o; listening_open = l; exclusive = x };
          unlocked = connect_client-unlocked env host port b (started w) w' e;
        },
        ground arith,
      )

  pub set_timeout-Idle :
      (others n : ℕ) (b : Bool) (w w' : World U)
      → set_timeout env n w ≡ ok b w'
      → Idle (Sound others) w
      → Idle (Sound others) w' × (w'.sock.is_open ≡ w.sock.is_open)
  unfolding set_timeout
  set_timeout-Idle others n b w w' e i = ground arith

  pub Idle-refs :
      (others : ℕ) (w : World U) → Idle (Sound others) w → w.refs ≡ others + count w.sock.is_open
  Idle-refs others w i = i.holds.counted

  pub disconnect-refs :
      (others : ℕ) (w : World U)
      → others + 1 < 2 ^ 64
      → Idle (Sound others) w
      → (disconnect env w).refs ≡ others
  unfolding disconnect close
  disconnect-refs others w h i = let c = i.holds.counted in ground arith

  -- From the command on.
  after_command :
      (a : ClientArgs) (z : ℤ) (w w' : World U) (o : Outcome (World U) (Unit {0})) (others : ℕ)
      → others + 1 < 2 ^ 64
      → Stays (Idle (Sound others)) o
      → ◌>>=◌ (λ _. o) (λ u. modify (disconnect env) >> pure (pos 0)) w ≡ ok z w'
      → w'.refs ≡ others + left_open z
  after_command a z w w' (ok tt w₃) others h i e =
      let left = disconnect-refs others w₃ h i in ground arith
  after_command a z w w' (fail c w₃) others h i e = ground arith
  after_command a z w w' crash others h i e = ground arith
  after_command a z w w' stuck others h i e = ground arith

  -- From SetTimeout on.
  after_timeout :
      (a : ClientArgs) (address : ℕ) (z : ℤ) (w w₁ w' : World U) (o : Outcome (World U) Bool)
      → w.refs + 1 < 2 ^ 64
      → libc.inet_pton (c_string a.remote_host) ≡ some address
      → connect_client env (libc.ntohl address) a.remote_port (started w) ≡ ok true w₁
      → set_timeout env a.timeout w₁ ≡ o
      → run_client env libc a w ≡ ok z w'
      → w'.refs ≡ w.refs + left_open z
  unfolding run_client
  after_timeout a address z w w₁ w' (ok true w₂) h i e s f =
      let (idle₁, opened₁) = connect_client-Idle (libc.ntohl address) a.remote_port true w w₁ h e in
      let (idle₂, opened₂) = set_timeout-Idle w.refs a.timeout true w₁ w₂ s idle₁ in
      after_command a z w₂ w' (run_command env libc a w₂) w.refs h
        ((run_command-Idle w.refs h a).at w₂ idle₂) (ground arith)
  after_timeout a address z w w₁ w' (ok false w₂) h i e s f =
      let (idle₁, opened₁) = connect_client-Idle (libc.ntohl address) a.remote_port true w w₁ h e in
      let (idle₂, opened₂) = set_timeout-Idle w.refs a.timeout false w₁ w₂ s idle₁ in
      let kept = Idle-refs w.refs w₂ idle₂ in ground arith
  after_timeout a address z w w₁ w' (fail c w₂) h i e s f = ground arith
  after_timeout a address z w w₁ w' crash h i e s f = ground arith
  after_timeout a address z w w₁ w' stuck h i e s f = ground arith

  after_connect :
      (a : ClientArgs) (address : ℕ) (z : ℤ) (w w' : World U) (o : Outcome (World U) Bool)
      → w.refs + 1 < 2 ^ 64
      → libc.inet_pton (c_string a.remote_host) ≡ some address
      → connect_client env (libc.ntohl address) a.remote_port (started w) ≡ o
      → run_client env libc a w ≡ ok z w'
      → w'.refs ≡ w.refs + left_open z
  unfolding run_client
  after_connect a address z w w' (ok true w₁) h i e f =
      after_timeout a address z w w₁ w' (set_timeout env a.timeout w₁) h i e refl f
  after_connect a address z w w' (ok false w₁) h i e f =
      let (idle, opened) = connect_client-Idle (libc.ntohl address) a.remote_port false w w₁ h e in
      let kept = Idle-refs w.refs w₁ idle in ground arith
  after_connect a address z w w' (fail c w₁) h i e f = ground arith
  after_connect a address z w w' crash h i e f = ground arith
  after_connect a address z w w' stuck h i e f = ground arith

  after_address :
      (o : Option ℕ) (a : ClientArgs) (z : ℤ) (w w' : World U)
      → w.refs + 1 < 2 ^ 64
      → libc.inet_pton (c_string a.remote_host) ≡ o
      → run_client env libc a w ≡ ok z w'
      → w'.refs ≡ w.refs + left_open z
  unfolding run_client
  after_address none a z w w' h i e = ground arith
  after_address (some address) a z w w' h i e =
      after_connect a address z w w'
        (connect_client env (libc.ntohl address) a.remote_port (started w)) h i refl e

  client_args-early : (args : Args) (n : ℕ) → client_args libc args ≡ inl (negsuc n) → n ≤ 2
  unfolding client_args
  client_args-early args n e = ground arith

  after_args :
      (r : ℤ ⊎ ClientArgs) (args : Args) (argv : List (List ℕ)) (z : ℤ) (w w' : World U)
      → w.refs + 1 < 2 ^ 64
      → parse_args argv [] ≡ some args
      → client_args libc args ≡ r
      → client_main env libc argv w ≡ ok z w'
      → w'.refs ≡ w.refs + left_open z
  unfolding client_main
  after_args (inl (pos k)) args argv z w w' h p c e = ground arith
  after_args (inl (negsuc k)) args argv z w w' h p c e =
      let early = client_args-early args k c in ground arith
  after_args (inr a) args argv z w w' h p c e =
      after_address (libc.inet_pton (c_string a.remote_host)) a z w w' h refl (ground arith)

  after_parse :
      (args : Option Args) (argv : List (List ℕ)) (z : ℤ) (w w' : World U)
      → w.refs + 1 < 2 ^ 64
      → parse_args argv [] ≡ args
      → client_main env libc argv w ≡ ok z w'
      → w'.refs ≡ w.refs + left_open z
  unfolding client_main
  after_parse none argv z w w' h p e = ground arith
  after_parse (some args) argv z w w' h p e =
      after_args (client_args libc args) args argv z w w' h p refl e

  -- uft_client, where it exits, with whatever code, whatever the library, the file system and the
  -- peer do, fewer than 2 ^ 64 - 1 references to UDT being held: the references are as many as
  -- before, but for the code -6, where the client's socket is left open with one reference more.
  pub client_main_leaves :
      (argv : List (List ℕ)) (z : ℤ) (w w' : World U)
      → w.refs + 1 < 2 ^ 64
      → client_main env libc argv w ≡ ok z w'
      → w'.refs ≡ w.refs + left_open z
  client_main_leaves argv z w w' h e = after_parse (parse_args argv []) argv z w w' h refl e
