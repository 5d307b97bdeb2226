-- ===== src/DotNet.antt =====
-- UFT.DotNET/main.cpp: the managed classes around UFT/UFTSession.hpp, UFT/UFTClient.hpp and
-- UFT/UFTListener.hpp. A System::String stands for the std::string that marshal_as makes of it, and
-- an error code that goes on stands for the exception whose message is its name.
pub mod Laws
use uft.Prelude.{
  ℕ, ◌+◌, ◌-◌, ◌%◌, ◌^◌, Bool, true, false, List, [], ◌∷◌, ◌++◌, take, map, suc, Option, none, some,
  Program, Outcome, pure, throw, ok, fail, crash, stuck, ◌>>=◌, ◌>>◌, modify, Code,
  network_api_error, network_not_connected, network_connection_lost,
}
use uft.World.{World, Env, Context, get_sock}
use uft.BitConverter.{load}
use uft.Client.{ensure_open, undo_open}
use uft.Listener.{start_listening, stop_listening, accept_session}
use uft.Session.{FileListEntry, c_string}
use uft.Programs.{ℤ, pos, negsuc}
use uft.Session.Packet.{disconnect as disconnect_session}
use uft.Session.Transmit.{update, send_file, receive_file, get_files}
use uft.Socket.{set_timeout, connect, set_blocking, disconnect}

-- ThrowExceptionOrReturnFalseOnConnectionLost: whether the method answers false.
abbrev pub is_closed : Code → Bool
is_closed network_api_error = true
is_closed network_not_connected = true
is_closed network_connection_lost = true
is_closed _ = false

-- A call, and the check of its error code: `none` where the method answers false.
abbrev pub checked_call : {W A : Type 0} → Program W A → Program W (Option A)
checked_call m w = elim (m w) [
  | ok a w' ↦ ok (some a) w'
  | fail c w' ↦ elim (is_closed c) [ true ↦ ok none w' | false ↦ fail c w' ]
  | crash ↦ crash
  | stuck ↦ stuck
]

abbrev pub answered : {A : Type 0} → Option A → Bool
answered none = false
answered (some a) = true

-- System::Array::Reverse, and the UInt32 at the front, on a little-endian machine.
abbrev pub reverse_bytes : List ℕ → List ℕ
reverse_bytes [] = []
reverse_bytes (b ∷ bs) = reverse_bytes bs ++ (b ∷ [])

unfoldable pub address_word : List ℕ → ℕ
unfolding load
address_word bytes = load (take 4 (reverse_bytes bytes))

-- UFTSession_FileInfo, whose timestamp has 64 bits.
pub record ManagedFileInfo : Type 0 where
  pub path : List ℕ
  pub size : ℕ
  pub timestamp : ℕ

abbrev managed_entry : FileListEntry → ManagedFileInfo
managed_entry entry = record { path = entry.path; size = entry.size; timestamp = entry.timestamp }

abbrev pub managed_entries : Option (List FileListEntry) → Option (List ManagedFileInfo)
managed_entries none = none
managed_entries (some entries) = some (map managed_entry entries)

-- The std::uint32_t that a System::Int32 becomes.
abbrev pub unsigned32 : ℤ → ℕ
unsigned32 (pos n) = n
unsigned32 (negsuc n) = 2 ^ 32 - suc n

-- A process with the GCHandles that it holds.
pub record Managed (U : Type 0) : Type 0 where
  pub world : World U
  pub handles : ℕ

module _ {U : Type 0} (env : Env U) where
  -- UFTSession
  unfoldable pub managed_update : Program (World U) Bool
  managed_update = do answer ← checked_call (update env); pure (answered answer)

  unfoldable pub managed_get_files : List ℕ → Program (World U) (Option (List ManagedFileInfo))
  managed_get_files path = do
    answer ← checked_call (get_files env (c_string path))
    pure (managed_entries answer)

  -- SetTimeout: `to_int32` is System::Convert::ToInt32 of the TotalMilliseconds of a TimeSpan, with
  -- `none` where it throws; the method then throws as well.
  unfoldable pub managed_set_timeout :
      {TimeSpan : Type 0} → (TimeSpan → Option ℤ) → TimeSpan → Program (World U) (Option Bool)
  unfolding set_timeout
  managed_set_timeout to_int32 value = elim (to_int32 value) [
    | none ↦ pure none
    | some milliseconds ↦ do set ← set_timeout env (unsigned32 milliseconds); pure (some set)
  ]

  -- Disconnect of UFTSession
  unfoldable pub managed_disconnect : World U → World U
  managed_disconnect w = disconnect_session env w

  unfoldable pub managed_send_file : List ℕ → List ℕ → Program (World U) Bool
  managed_send_file source destination = do
    answer ← checked_call (send_file env (c_string source) (c_string destination) false)
    pure (answered answer)

  unfoldable pub managed_receive_file : List ℕ → List ℕ → Program (World U) Bool
  managed_receive_file source destination = do
    answer ← checked_call (receive_file env (c_string source) (c_string destination) false)
    pure (answered answer)

  -- The calls with a delegate: two handles are allocated, and freed only behind a call that succeeds.
  abbrev pub free_handles : ℕ → Option (Unit {0}) → World U → Outcome (Managed U) Bool
  free_handles n none w = ok false (record { world = w; handles = n })
  free_handles n (some t) w = ok true (record { world = w; handles = n - 2 })

  abbrev pub with_delegate : Program (World U) (Unit {0}) → Program (Managed U) Bool
  with_delegate m s = elim (checked_call m s.world) [
    | ok answer w ↦ free_handles (s.handles + 2) answer w
    | fail c w ↦ fail c (record { world = w; handles = s.handles + 2 })
    | crash ↦ crash
    | stuck ↦ stuck
  ]

  unfoldable pub managed_send_reporting : List ℕ → List ℕ → Program (Managed U) Bool
  managed_send_reporting source destination =
      with_delegate (send_file env (c_string source) (c_string destination) true)

  unfoldable pub managed_receive_reporting : List ℕ → List ℕ → Program (Managed U) Bool
  managed_receive_reporting source destination =
      with_delegate (receive_file env (c_string source) (c_string destination) true)

  -- UFTClient::Connect, on the bytes of the address and the port of an IPEndPoint.
  unfoldable pub managed_connect : List ℕ → ℕ → Program (World U) Bool
  unfolding address_word connect set_blocking disconnect
  managed_connect address port = do
    c ← get_sock
    opened ← ensure_open env c.is_open
    elim opened [
      | false ↦ pure false
      | true ↦ do
        connected ← connect env (address_word address) (port % 2 ^ 16)
        elim connected [
          | false ↦ undo_open env c.is_open >> pure false
          | true ↦ do
            set ← set_blocking env false
            elim set [
              | true ↦ pure true
              | false ↦ do modify (disconnect env); undo_open env c.is_open; pure false
            ]
        ]
    ]

  -- UFTListener
  unfoldable pub managed_listen : List ℕ → ℕ → ℕ → Program (World U) Bool
  unfolding address_word start_listening
  managed_listen address port backlog =
      start_listening env (address_word address) (port % 2 ^ 16) backlog

  unfoldable pub managed_accept : Context → Program (World U) (Bool × Context)
  managed_accept session = accept_session env session

  unfoldable pub managed_close : World U → World U
  unfolding stop_listening
  managed_close w = elim w.sock.is_open [ true ↦ stop_listening env w | false ↦ w ]
