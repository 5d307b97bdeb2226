-- ===== src/Session/Transmit.antt =====
-- UFT/UFTSession.hpp: the two sides of a transfer, the packets that a session answers, and its
-- public methods. A `direction` is the byte of a TransmitFileDirections.
use uft.Prelude.{
  ℕ, zero, suc, ◌+◌, Bool, true, false, List, [], ◌∷◌, length, map, ok, fail, crash, stuck, Program,
  pure, throw, ◌>>=◌, ◌>>◌, finally, Code, network_api_error, network_would_block,
  network_not_connected, filesystem_file_not_found, if◌then◌else◌,
}
use uft.World.{World, Env}
use uft.Files.{FilePath}
use uft.ByteBuffer.{
  ByteBuffer, Writing, read_bytes, read_u8, write_bytes, write_u8, write_u32, write_u64,
}
use uft.Socket.{lock_io, unlock_io}
use uft.Session.{
  OpCode, get_file_list, get_file_list_result, transmit_file, transmit_file_hash,
  transmit_file_chunk, transmit_file_chunk_result, up, down, c_string, assign, FileInfo,
  new_file_info, FileListEntry,
}
use uft.Session.Info.{get_file_info, Answer, is_present}
use uft.Session.Packet.{send_op, read_packet, read_next_packet, field, break_off}
use uft.Session.Listing.{send_file_list, receive_file_list, read_file_info}
use uft.Session.Sender.{send_file_chunks}
use uft.Session.Receiver.{receive_file_chunks}

abbrev pub transmit_capacity : List ℕ → ℕ
transmit_capacity path = 1 + length path + 8 + 4 + 1

abbrev pub transmit_writes : List ℕ → FileInfo → ℕ → List (ByteBuffer → Writing)
transmit_writes path local direction =
    write_u8 (length path)
    ∷ write_bytes path
    ∷ write_u64 local.size
    ∷ write_u32 local.timestamp
    ∷ write_u8 direction
    ∷ []

-- The paths and the local file's data with which TransmitFile begins.
pub record TransferEnds : Type 0 where
  pub local : FileInfo
  pub remote_path : List ℕ

module _ {U : Type 0} (env : Env U) where
  abbrev pub stat_file : FilePath → Program (World U) (Answer × FileInfo)
  stat_file path w = ok (get_file_info env.os w.files path new_file_info true) w

  unfoldable pub local_end : FilePath → FilePath → ℕ → Program (World U) TransferEnds
  local_end source destination zero = do
    (answer, local) ← stat_file source
    elim (is_present answer) [
      | true ↦ pure (record { local = local; remote_path = assign destination })
      | false ↦ throw filesystem_file_not_found
    ]
  local_end source destination (suc zero) = do
    (answer, local) ← stat_file destination
    pure (record {
      local = if is_present answer then local else record local { path = assign destination };
      remote_path = assign source;
    })
  local_end source destination (suc (suc n)) =
      pure (record { local = new_file_info; remote_path = [] })

  -- The last switch of TransmitFile, and of TransmitFile2 with the two sides exchanged.
  unfoldable pub exchange : ℕ → FileInfo → FileInfo → Bool → Program (World U) (Unit {0})
  exchange zero local remote reporting = send_file_chunks env local remote reporting
  exchange (suc zero) local remote reporting = receive_file_chunks env local remote reporting
  exchange (suc (suc n)) local remote reporting = break_off env

  unfoldable pub start_transfer : FilePath → FilePath → ℕ → Bool → Program (World U) (Unit {0})
  unfolding local_end exchange
  start_transfer source destination direction reporting = do
    ends ← local_end source destination direction
    send_op env transmit_file (transmit_capacity ends.remote_path)
        (transmit_writes ends.remote_path ends.local direction)
    packet ← read_packet env transmit_file
    (remote, _) ← read_file_info env packet
    exchange direction ends.local remote reporting

  -- The FileInfo with which TransmitFile2 answers.
  unfoldable pub answering_end : FileInfo → ℕ → Program (World U) FileInfo
  answering_end remote direction = do
    (answer, local) ← stat_file (c_string remote.path)
    elim (is_present answer) [
      | true ↦ pure local
      | false ↦ elim direction [
        | zero ↦ pure (record local { path = assign (c_string remote.path) })
        | suc n ↦ elim n [ zero ↦ break_off env | suc m ↦ pure local ]
      ]
    ]

  abbrev pub opposite : ℕ → ℕ
  opposite zero = 1
  opposite (suc zero) = 0
  opposite (suc (suc n)) = suc (suc n)

  -- TransmitFile2, which has no progress callback.
  unfoldable pub answer_transfer : FileInfo → ℕ → Program (World U) (Unit {0})
  unfolding answering_end exchange
  answer_transfer remote direction = do
    local ← answering_end remote direction
    send_op env transmit_file (transmit_capacity local.path)
        (transmit_writes local.path local direction)
    exchange (opposite direction) local remote false

  unfoldable pub handle_packet : OpCode → ByteBuffer → Program (World U) (Unit {0})
  unfolding answer_transfer
  handle_packet get_file_list buffer = do
    (count, buffer₁) ← field env read_u8 buffer
    (path, _) ← field env (read_bytes count) buffer₁
    send_file_list env (c_string path)
  handle_packet get_file_list_result buffer = throw network_api_error
  handle_packet transmit_file buffer = do
    (remote, buffer₁) ← read_file_info env buffer
    (direction, _) ← field env read_u8 buffer₁
    answer_transfer remote direction
  handle_packet transmit_file_hash buffer = throw network_api_error
  handle_packet transmit_file_chunk buffer = throw network_api_error
  handle_packet transmit_file_chunk_result buffer = throw network_api_error

  -- Where no further packet has come the loop of OnUpdate ends well.
  abbrev pub end_loop : Code → Program (World U) (Unit {0})
  end_loop network_would_block w = ok tt w
  end_loop c w = fail c w

  unfoldable pub update_loop : ℕ → Program (World U) (Unit {0})
  unfolding handle_packet
  update_loop zero w = stuck
  update_loop (suc fuel) w = elim (read_next_packet env false w) [
    | ok (op, buffer) w' ↦ (handle_packet op buffer >> update_loop fuel) w'
    | fail c w' ↦ end_loop c w'
    | crash ↦ crash
    | stuck ↦ stuck
  ]

  -- UFTSocket_IOLockGuard
  abbrev pub guarded : {A : Type 0} → Program (World U) A → Program (World U) A
  guarded m = lock_io env >> finally m (unlock_io env)

  abbrev pub when_connected : {A : Type 0} → Program (World U) A → Program (World U) A
  when_connected m w = if w.sock.is_connected then m w else fail network_not_connected w

  -- Update and OnUpdate
  unfoldable pub update : Program (World U) (Unit {0})
  unfolding update_loop
  update = when_connected (guarded (update_loop env.fuel))

  unfoldable pub send_file : FilePath → FilePath → Bool → Program (World U) (Unit {0})
  send_file source destination reporting =
      when_connected (guarded (start_transfer source destination up reporting))

  unfoldable pub receive_file : FilePath → FilePath → Bool → Program (World U) (Unit {0})
  receive_file source destination reporting =
      when_connected (guarded (start_transfer source destination down reporting))

  abbrev pub list_entry : FileInfo → FileListEntry
  list_entry info = record {
    path = c_string info.path;
    size = info.size;
    timestamp = info.timestamp;
  }

  unfoldable pub get_files : FilePath → Program (World U) (List FileListEntry)
  unfolding c_string
  get_files path =
      when_connected do infos ← guarded (receive_file_list env path); pure (map list_entry infos)
