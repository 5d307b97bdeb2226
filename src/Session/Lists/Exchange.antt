-- ===== src/Session/Lists/Exchange.antt =====
-- GetFileList of UFT/UFTSession.hpp on both sides: SendFileList, ReceiveFileList, the public method
-- and HandlePacket.
use uft.Prelude.{
  ℕ, ◌+◌, ◌%◌, ◌^◌, ◌<◌, ◌≡◌, sym, ap, ◌∙◌, arith, Bool, true, false, List, [], ◌∷◌, ◌++◌, length,
  length-append, map, Option, none, some, ok, fail, remote_error, network_not_connected, Outcome,
  finally, if◌then◌else◌, ◌>>=◌, pure,
}
use uft.World.{World, Env}
use uft.Files.{FilePath}
use uft.BitConverter.Order.{big_endian}
use uft.ByteBuffer.{write_u8, write_bytes}
use uft.ByteBuffer.Laws.{unread}
use uft.ByteBuffer.Fields.{
  read_u8-Reads, read_bytes-Reads, read_bool-Reads, read_u32-Reads, write_u8-Writes,
  write_bytes-Writes,
}
use uft.Session.{FileInfo, FileListEntry, get_file_list, get_file_list_result}
use uft.Session.Info.{get_files_in_path}
use uft.Session.Packet.{header_size, read_packet, send_op}
use uft.Session.Listing.{list_capacity, list_writes, send_file_list, receive_file_list}
use uft.Session.Transmit.{handle_packet, get_files, list_entry, guarded}
use uft.Session.Wire.{flat, send_op_lem}
use uft.Session.Reading.{read_packet_lem}
use uft.Session.Exchange.{Talk, of_sent, then_got, Talk-left}
use uft.Session.Offer.{is_path, path_string}
use uft.Session.Lists.{
  entries_bytes, list_bytes, list_request, list_message, ListFits, count-entries_size,
  list_bytes-size, list_writes-Layout, read_entries_lem,
}
use uft.Session.Serving.{locked, guarded_lem}
use uft.Socket.{unlock_io}
use uft.Socket.Delivery.{Link, IsUp, at}

-- What comes of a list, or of the word that there is none.
abbrev pub outcome_of : {W A : Type 0} → Option A → W → Outcome W A
outcome_of none w = fail remote_error w
outcome_of (some a) w = ok a w

module _ {U : Type 0} (env : Env U) (link : Link env.udt) where
  open link use {queues.{incoming, outgoing, waits}}

  -- The fuel and the size for the packet of a list.
  abbrev pub ListRoom : Option (List FileInfo) → U → Type 0
  ListRoom infos u =
      (header_size + list_capacity infos < 2 ^ 31)
      × (header_size + list_capacity infos + waits u < env.fuel)

  send_file_list_lem :
      (path : FilePath) (w : World U)
      → ListFits (get_files_in_path env.os w.files path false)
      → IsUp env link w.sock
      → ListRoom (get_files_in_path env.os w.files path false) w.net
      → (v : U) × (send_file_list env path w ≡ ok tt (at env link w v))
        × Talk env link (list_message (get_files_in_path env.os w.files path false)) [] w.net v
  unfolding send_file_list
  send_file_list_lem path w f up (h, k) =
      let infos = get_files_in_path env.os w.files path false in
      let (v, run, moved) =
        send_op_lem env link get_file_list_result (list_capacity infos) (list_writes infos)
          (list_bytes infos) w (list_writes-Layout infos f (omega arith)) (list_bytes-size infos) up
          h k in
      (v, run, of_sent env link (list_message infos) w.net v moved)

  -- ReceiveFileList, once its packet has gone out and the answer is in.
  read_list :
      (path : FilePath) (infos : Option (List FileInfo)) (m : ℕ) (w u v : World U)
      → ListFits infos
      → list_capacity infos < 2 ^ 31
      → send_op env get_file_list
          (1 + length path)
          (write_u8 (length path % 256) ∷ write_bytes path ∷ [])
          w
        ≡ ok tt u
      → read_packet env get_file_list_result u ≡ ok (unread [] (flat (list_bytes infos)) m) v
      → receive_file_list env path w ≡ outcome_of infos v
  unfolding receive_file_list
  read_list path none m w u v f s e g =
      let told = read_bool-Reads false [] [] m (omega arith) in ground arith
  read_list path (some infos) m w u v f s e g =
      let count = big_endian 4 (length infos) in
      let rest = flat (entries_bytes infos) in
      let size = list_bytes-size (some infos) in
      let few = count-entries_size infos in
      let total = length-append count rest in
      let told = read_bool-Reads true [] (count ++ rest) m (omega arith) in
      let told' = read_u32-Reads (length infos) (omega arith) (1 ∷ []) rest m (omega arith) in
      let all = read_entries_lem env infos [] (1 ∷ count) m v f (omega arith) in ground arith

  pub ask_for_list :
      (path : FilePath) (infos : Option (List FileInfo)) (more : List ℕ) (w : World U)
      → is_path path ≡ true
      → ListFits infos
      → list_capacity infos < 2 ^ 31
      → IsUp env link w.sock
      → header_size + 270 + waits w.net < env.fuel
      → header_size + list_capacity infos + waits w.net < env.fuel
      → incoming w.net ≡ list_message infos ++ more
      → (v : U) × (receive_file_list env path w ≡ outcome_of infos (at env link w v))
        × Talk env link (list_request path) (list_message infos) w.net v
  ask_for_list path infos more w p f s up k k' i =
      let short : length path < 256 = ground arith in
      let whole : length path % 256 ≡ length path = omega arith in
      let size = length-append path [] in
      let (u, run, sent) =
        send_op_lem env link get_file_list (1 + length path)
          (write_u8 (length path % 256) ∷ write_bytes path ∷ []) ((length path ∷ []) ∷ path ∷ []) w
          (rw whole (write_u8-Writes (length path) short), (write_bytes-Writes path, tt))
          (omega arith) up (omega arith) (omega arith) in
      let talk = of_sent env link (list_request path) w.net u sent in
      let (v, run', got_) =
        read_packet_lem env link get_file_list_result (flat (list_bytes infos)) more
          (at env link w u) up
          (Talk-left env link (list_request path) [] (list_message infos ++ more) w.net u talk i)
          (omega (arith, list_bytes-size infos)) (omega (arith, list_bytes-size infos, sent)) in
      (
        v,
        read_list path infos (length (flat (list_bytes infos))) w (at env link w u)
            (at env link w v) f s run run',
        then_got env link (list_request path) (list_message infos) w.net u v talk got_,
      )

  abbrev pub list_result : Option (List FileInfo) → Option (List FileListEntry)
  list_result none = none
  list_result (some infos) = some (map (list_entry env) infos)

  listed :
      (infos : Option (List FileInfo)) (w : World U) (v : U)
      → w.sock.io_locked ≡ false
      → ◌>>=◌ {W = World U}
          (λ w.
            finally {W = World U}
              (λ _. outcome_of infos (at env link (locked env w) v))
              (unlock_io env)
              w)
          (λ infos. pure (map (list_entry env) infos))
          w
        ≡ outcome_of (list_result infos) (at env link w v)
  listed none w v h =
      ap
        (λ (b : Bool).
          fail remote_error (record w { sock = record (w.sock) { io_locked = b }; net = v }))
        (sym h)
  listed (some infos) w v h =
      ap
        (λ (b : Bool).
          ok (map (list_entry env) infos)
            (record w { sock = record (w.sock) { io_locked = b }; net = v }))
        (sym h)

  -- The public method on a free lock.
  pub public_list :
      (path : FilePath) (infos : Option (List FileInfo)) (w : World U) (v : U)
      → w.sock.is_connected ≡ true
      → w.sock.io_locked ≡ false
      → receive_file_list env path (locked env w) ≡ outcome_of infos (at env link (locked env w) v)
      → get_files env path w ≡ outcome_of (list_result infos) (at env link w v)
  unfolding get_files
  public_list path infos w v c h e =
      ap
        (λ (b : Bool).
          if b
          then (guarded env (receive_file_list env path) >>= λ infos.
                pure (map (list_entry env) infos))
              w
          else fail network_not_connected w)
        c
      ∙ ap
          (λ (o : Outcome (World U) (List FileInfo)).
            ◌>>=◌ {W = World U} (λ _. o) (λ infos. pure (map (list_entry env) infos)) w)
          (guarded_lem env (receive_file_list env path)
            (outcome_of infos (at env link (locked env w) v)) w h e)
      ∙ listed infos w v h

  -- HandlePacket on a request for a list.
  pub answer_list :
      (path : FilePath) (w : World U)
      → is_path path ≡ true
      → ListFits (get_files_in_path env.os w.files path false)
      → IsUp env link w.sock
      → ListRoom (get_files_in_path env.os w.files path false) w.net
      → (v : U) × (handle_packet env get_file_list
            (unread []
              (flat ((length path ∷ []) ∷ path ∷ []))
              (length (flat ((length path ∷ []) ∷ path ∷ []))))
            w
          ≡ ok tt (at env link w v))
        × Talk env link (list_message (get_files_in_path env.os w.files path false)) [] w.net v
  unfolding handle_packet
  answer_list path w p f up room =
      let (v, run, talk) = send_file_list_lem path w f up room in
      let short : length path < 256 = ground arith in
      let size = length-append path [] in
      let n = length (flat ((length path ∷ []) ∷ path ∷ [])) in
      let told = read_u8-Reads (length path) [] (path ++ []) n (omega arith) in
      let told' = read_bytes-Reads path (length path ∷ []) [] n (omega arith) in
      let whole = path_string path p in (v, ground arith, talk)
