-- ===== src/Programs/UftClient.antt =====
-- UFT/uft_client.cpp: the client's main.
use uft.Prelude.{
  ℕ, true, false, none, some, List, [], ◌⊎◌, inl, inr, Program, pure, crash, ◌>>=◌, ◌>>◌, modify,
  codes, bytes_eq, if◌then◌else◌,
}
use uft.World.{World, Env, on_sock}
use uft.Client.{connect_client}
use uft.CmdLineArgs.{Args, try_get_value, to_u16, to_u32, parse_args}
use uft.Programs.{ℤ, pos, negsuc, Libc, or_exit, settle}
use uft.Session.{c_string}
use uft.Session.Packet.{disconnect}
use uft.Session.Transmit.{send_file, receive_file, get_files}
use uft.Socket.{new_context, set_timeout}

-- The local variables arg… of main.
pub record ClientArgs : Type 0 where
  pub remote_host : List ℕ
  pub remote_port : ℕ
  pub command : List ℕ
  pub timeout : ℕ
  pub path : List ℕ
  pub source : List ℕ
  pub destination : List ℕ

-- The checks of the arguments, each with its exit code.
unfoldable pub client_args : Libc → Args → ℤ ⊎ ClientArgs
unfolding try_get_value
client_args libc args =
    or_exit (negsuc 0) (try_get_value (λ s. s) (codes "remote-host") args) λ host.
      or_exit (negsuc 0) (try_get_value (to_u16 libc.strtoul) (codes "remote-port") args) λ port.
        or_exit (negsuc 0) (try_get_value (λ s. s) (codes "command") args) λ command.
          or_exit (negsuc 0) (try_get_value (to_u32 libc.strtoul) (codes "timeout") args) λ timeout.
            if bytes_eq command (codes "get_file_list")
            then (or_exit (negsuc 2) (try_get_value (λ s. s) (codes "path") args) λ path.
                inr (record {
                  remote_host = host;
                  remote_port = port;
                  command = command;
                  timeout = timeout;
                  path = path;
                  source = [];
                  destination = [];
                }))
            else or_exit (negsuc 1) (try_get_value (λ s. s) (codes "source") args) λ source.
              or_exit (negsuc 1) (try_get_value (λ s. s) (codes "destination") args) λ destination.
                inr (record {
                  remote_host = host;
                  remote_port = port;
                  command = command;
                  timeout = timeout;
                  path = [];
                  source = source;
                  destination = destination;
                })

module _ {U : Type 0} (env : Env U) (libc : Libc) where
  -- The chain over argCommand; another command is only reported.
  unfoldable pub run_command : ClientArgs → Program (World U) (Unit {0})
  unfolding send_file receive_file get_files
  run_command a =
      if bytes_eq a.command (codes "send_file")
      then settle (send_file env (c_string a.source) (c_string a.destination) true)
      else if bytes_eq a.command (codes "receive_file")
      then settle (receive_file env (c_string a.source) (c_string a.destination) true)
      else if bytes_eq a.command (codes "get_file_list")
      then settle (get_files env (c_string a.path))
      else pure tt

  -- From the address on.
  unfoldable pub run_client : ClientArgs → Program (World U) ℤ
  unfolding connect_client set_timeout disconnect
  run_client a = elim (libc.inet_pton (c_string a.remote_host)) [
    | none ↦ pure (negsuc 3)
    | some address ↦ do
      on_sock (λ _. new_context)
      connected ← connect_client env (libc.ntohl address) a.remote_port
      elim connected [
        | false ↦ pure (negsuc 4)
        | true ↦ do
          set ← set_timeout env a.timeout
          elim set [
            | false ↦ pure (negsuc 5)
            | true ↦ do run_command a; modify (disconnect env); pure (pos 0)
          ]
      ]
  ]

  -- main, on the arguments behind the program's name. What the constructor of CmdLineArgs throws
  -- ends the process.
  unfoldable pub client_main : List (List ℕ) → Program (World U) ℤ
  unfolding parse_args client_args
  client_main argv = elim (parse_args argv []) [
    | none ↦ λ w. crash
    | some args ↦ elim (client_args libc args) [ inl code ↦ pure code | inr a ↦ run_client a ]
  ]
