-- ===== src/World.antt =====
-- The state that UFT/UFTSocket.cpp and UFT/UFTSession.hpp work on, and what they call: the UDT and
-- zlib libraries and the operating system.
use uft.Prelude.{ℕ, ◌^◌, ◌-◌, ◌%◌, Bool, Option, List, ok, Program}
use uft.Files.{Files, Os}

-- The options that the program sets.
pub data SockOpt : Type 0 where
  udt_sndsyn udt_rcvsyn udt_sndtimeo udt_rcvtimeo : SockOpt

-- An IPv4 address and port, in host order.
pub record Address : Type 0 where
  pub host : ℕ
  pub port : ℕ

-- The answers of UDT::send and UDT::recv: a count or bytes, EASYNCSND or EASYNCRCV, another error.
pub data Sent : Type 0 where
  sent : ℕ → Sent
  send_again : Sent
  send_error : Sent

pub data Received : Type 0 where
  received : List ℕ → Received
  recv_again : Received
  recv_error : Received

-- The bit pattern of the std::int32_t that a number of bytes is cast to; from 2 ^ 31 on it stands for
-- a negative number.
abbrev pub int32 : ℕ → ℕ
int32 n = n % 2 ^ 32

-- The UDT API over the state U of the library. A Boolean answer is false for UDT::ERROR. The length
-- that send and recv get is an int32; a send gets the bytes from its pointer on as well.
pub record Udt (U : Type 0) : Type 0 where
  pub startup : U → U
  pub cleanup : U → U
  pub socket : U → ℕ × U
  pub close : ℕ → U → U
  pub setsockopt : ℕ → SockOpt → ℕ → U → Bool × U
  pub bind : ℕ → Address → U → Bool × U
  pub listen : ℕ → ℕ → U → Bool × U
  pub accept : ℕ → U → ℕ × U
  pub getpeername : ℕ → U → Option Address × U
  pub connect : ℕ → Address → U → Bool × U
  pub send : ℕ → List ℕ → ℕ → U → Sent × U
  pub recv : ℕ → ℕ → U → Received × U

-- UDT::INVALID_SOCK, which is -1.
abbrev pub invalid_sock : ℕ
invalid_sock = 2 ^ 32 - 1

-- deflate and inflate with Z_FINISH: the bytes in, the room for output, the bytes out.
pub record Zlib : Type 0 where
  pub deflate : List ℕ → ℕ → List ℕ
  pub inflate : List ℕ → ℕ → List ℕ

-- What the session is built over. `chunk_size` is FILE_CHUNK_SIZE, and `fuel` bounds each loop.
pub record Env (U : Type 0) : Type 0 where
  pub udt : Udt U
  pub os : Os
  pub zlib : Zlib
  pub chunk_size : ℕ
  pub fuel : ℕ

-- FILE_CHUNK_SIZE as the source sets it.
abbrev pub file_chunk_size : ℕ
file_chunk_size = 1048576

-- UFTSocket::Context. `io_locked` is the state of IOMutex.
pub record Context : Type 0 where
  pub is_open : Bool
  pub is_blocking : Bool
  pub is_connected : Bool
  pub is_listening : Bool
  pub timeout : ℕ
  pub handle : ℕ
  pub io_locked : Bool
  pub remote_port : ℕ
  pub remote_address : ℕ

-- One process: a session's socket, the library's state, UDT_Init_RefCount, the files, and the calls
-- of the progress callback, the last one first.
pub record World (U : Type 0) : Type 0 where
  pub sock : Context
  pub net : U
  pub refs : ℕ
  pub files : Files
  pub reports : List (ℕ × ℕ)

module _ {U : Type 0} where
  abbrev pub udt_call : {A : Type 0} → (U → A × U) → Program (World U) A
  udt_call f w = let (a, u) = f w.net in ok a (record w { net = u })

  abbrev pub udt_do : (U → U) → Program (World U) (Unit {0})
  udt_do f w = ok tt (record w { net = f w.net })

  abbrev pub on_sock : (Context → Context) → Program (World U) (Unit {0})
  on_sock f w = ok tt (record w { sock = f w.sock })

  abbrev pub get_sock : Program (World U) Context
  get_sock w = ok w.sock w
