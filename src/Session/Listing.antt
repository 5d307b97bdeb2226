-- ===== src/Session/Listing.antt =====
-- UFT/UFTSession.hpp: SendFileList and ReceiveFileList.
use uft.Prelude.{
  ℕ, zero, suc, ◌+◌, ◌%◌, ◌^◌, true, false, Option, none, some, List, [], ◌∷◌, ◌++◌, length,
  Program, pure, throw, ◌>>=◌, ◌>>◌, gets, remote_error,
}
use uft.World.{World, Env}
use uft.Files.{FilePath}
use uft.ByteBuffer.{
  ByteBuffer, Writing, read_bool, read_bytes, read_u8, read_u32, read_u64, write_bool, write_bytes,
  write_u8, write_u32, write_u64,
}
use uft.Session.{FileInfo, get_file_list, get_file_list_result}
use uft.Session.Info.{get_files_in_path}
use uft.Session.Packet.{send_op, read_packet, field}

-- What one file adds to the payload.
abbrev pub entry_size : FileInfo → ℕ
entry_size info = 1 + length info.path + 8 + 4

abbrev pub entries_size : List FileInfo → ℕ
entries_size [] = 0
entries_size (info ∷ infos) = entry_size info + entries_size infos

abbrev pub entry_writes : FileInfo → List (ByteBuffer → Writing) → List (ByteBuffer → Writing)
entry_writes info rest =
    write_u8 (length info.path)
    ∷ write_bytes info.path
    ∷ write_u64 info.size
    ∷ write_u32 info.timestamp
    ∷ rest

abbrev pub entries_writes : List FileInfo → List (ByteBuffer → Writing)
entries_writes [] = []
entries_writes (info ∷ infos) = entry_writes info (entries_writes infos)

abbrev pub list_capacity : Option (List FileInfo) → ℕ
list_capacity none = 1
list_capacity (some infos) = 1 + 4 + entries_size infos

abbrev pub list_writes : Option (List FileInfo) → List (ByteBuffer → Writing)
list_writes none = write_bool false ∷ []
list_writes (some infos) =
    write_bool true ∷ write_u32 (length infos % 2 ^ 32) ∷ entries_writes infos

module _ {U : Type 0} (env : Env U) where
  unfoldable pub send_file_list : FilePath → Program (World U) (Unit {0})
  send_file_list path = do
    infos ← gets (λ w. get_files_in_path env.os w.files path false)
    send_op env get_file_list_result (list_capacity infos) (list_writes infos)

  -- Path.Length, Path.Buffer, Size and Timestamp.
  unfoldable pub read_file_info : ByteBuffer → Program (World U) (FileInfo × ByteBuffer)
  read_file_info packet = do
    (count, packet₁) ← field env read_u8 packet
    (path, packet₂) ← field env (read_bytes count) packet₁
    (size, packet₃) ← field env read_u64 packet₂
    (timestamp, packet₄) ← field env read_u32 packet₃
    pure (record { path = path; size = size; timestamp = timestamp }, packet₄)

  unfoldable pub read_entries : ℕ → ByteBuffer → List FileInfo → Program (World U) (List FileInfo)
  unfolding read_file_info
  read_entries zero packet files = pure files
  read_entries (suc n) packet files = do
    (info, packet') ← read_file_info packet
    read_entries n packet' (files ++ (info ∷ []))

  unfoldable pub receive_file_list : FilePath → Program (World U) (List FileInfo)
  unfolding read_entries
  receive_file_list path = do
    send_op env get_file_list (1 + length path)
        (write_u8 (length path % 256) ∷ write_bytes path ∷ [])
    packet ← read_packet env get_file_list_result
    (success, packet₁) ← field env read_bool packet
    elim success [
      | true ↦ do (count, packet₂) ← field env read_u32 packet₁; read_entries count packet₂ []
      | false ↦ throw remote_error
    ]
