-- ===== src/Session.antt =====
-- UFT/UFTSession.hpp: the data of a session. A byte is a number below 256; Buffer of a String8 is
-- the list of its Length bytes, and as a C string it ends at its first zero.
pub mod Packet
pub mod Chunk
pub mod Sender
pub mod Receiver
pub mod Info
pub mod Listing
pub mod Transmit
pub mod Wire
pub mod Reading
pub mod Exchange
pub mod HashExchange
pub mod ChunkExchange
pub mod Plan
pub mod Sending
pub mod SendCompared
pub mod SendFile
pub mod Receiving
pub mod ReceiveCompared
pub mod ReceiveRound
pub mod ReceiveLoop
pub mod ReceiveFile
pub mod Synchronize
pub mod Guards
pub mod Offer
pub mod Meeting
pub mod Opening
pub mod Ends
pub mod Copy
pub mod Serving
pub mod Public
pub mod Service
pub mod Lists
pub mod Conduct
pub mod Soundness
pub mod Termination
use uft.Prelude.{
  ℕ, zero, suc, ◌+◌, ◌%◌, ◌^◌, Option, none, some, List, [], ◌∷◌, length, take, ltb, ◌==◌,
  if◌then◌else◌, codes, Code, success, remote_error, access_denied, network_api_error,
  network_would_block, network_not_connected, network_connection_lost, filesystem_file_not_found,
  filesystem_open_stream_failed,
}

-- enum class OPCodes : std::uint8_t
pub data OpCode : Type 0 where
  get_file_list get_file_list_result : OpCode
  transmit_file transmit_file_hash transmit_file_chunk transmit_file_chunk_result : OpCode

abbrev pub op_byte : OpCode → ℕ
op_byte get_file_list = 0
op_byte get_file_list_result = 1
op_byte transmit_file = 2
op_byte transmit_file_hash = 3
op_byte transmit_file_chunk = 4
op_byte transmit_file_chunk_result = 5

-- The cases of the switch over a header's opcode; `none` is its default.
abbrev pub op_of_byte : ℕ → Option OpCode
op_of_byte zero = some get_file_list
op_of_byte (suc zero) = some get_file_list_result
op_of_byte (suc (suc zero)) = some transmit_file
op_of_byte (suc (suc (suc zero))) = some transmit_file_hash
op_of_byte (suc (suc (suc (suc zero)))) = some transmit_file_chunk
op_of_byte (suc (suc (suc (suc (suc zero))))) = some transmit_file_chunk_result
op_of_byte (suc (suc (suc (suc (suc (suc n)))))) = none

-- enum class TransmitFileDirections : std::uint8_t, which a received byte need not be.
abbrev pub up : ℕ
up = 0

abbrev pub down : ℕ
down = 1

-- What a `const char*` to these bytes reads.
unfoldable pub c_string : List ℕ → List ℕ
c_string [] = []
c_string (zero ∷ bs) = []
c_string (suc b ∷ bs) = suc b ∷ c_string bs

-- String8::Assign: strlen is cast to std::uint8_t.
unfoldable pub assign : List ℕ → List ℕ
assign value = take (length value % 256) value

pub record FileInfo : Type 0 where
  pub path : List ℕ
  pub size : ℕ
  pub timestamp : ℕ

abbrev pub new_file_info : FileInfo
new_file_info = record { path = []; size = 0; timestamp = 0 }

-- UFTSession_FileListEntry
pub record FileListEntry : Type 0 where
  pub path : List ℕ
  pub size : ℕ
  pub timestamp : ℕ

-- std::uint64_t addition
abbrev pub add64 : ℕ → ℕ → ℕ
add64 a b = (a + b) % 2 ^ 64

-- UFTSESSION_ERROR_CODES_ToString
unfoldable pub code_name : Code → List ℕ
code_name success = codes "UFTSESSION_ERROR_CODE_SUCCESS"
code_name remote_error = codes "UFTSESSION_ERROR_CODE_REMOTE_ERROR"
code_name access_denied = codes "UFTSESSION_ERROR_CODE_ACCESS_DENIED"
code_name network_api_error = codes "UFTSESSION_ERROR_CODE_NETWORK_API_ERROR"
code_name network_would_block = codes "UFTSESSION_ERROR_CODE_NETWORK_WOULD_BLOCK"
code_name network_not_connected = codes "UFTSESSION_ERROR_CODE_NETWORK_NOT_CONNECTED"
code_name network_connection_lost = codes "UFTSESSION_ERROR_CODE_NETWORK_CONNECTION_LOST"
code_name filesystem_file_not_found = codes "UFTSESSION_ERROR_CODE_FILESYSTEM_FILE_NOT_FOUND"
code_name filesystem_open_stream_failed =
    codes "UFTSESSION_ERROR_CODE_FILESYSTEM_OPEN_STREAM_FAILED"
