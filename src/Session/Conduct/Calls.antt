-- ===== src/Session/Conduct/Calls.antt =====
-- UFT/UFTSession.hpp: the two sides of a transfer, the file lists and the packet loop, under a Conduct.
use uft.Prelude.{
  ℕ, zero, suc, ◌+◌, ◌%◌, ◌≤◌, ◌++◌, arith, Bool, true, false, length, List, [], ◌∷◌, ok, fail,
  crash, stuck, Outcome, ◌>>◌, Code, remote_error, network_api_error, filesystem_file_not_found,
  if◌then◌else◌,
}
use uft.Prelude.Keeps.{
  After, Leads-bind, Leads-pure, Leads-throw, Leads-stuck, Leads-test, Leads-state, Leads-count,
}
use uft.World.{World, Env}
use uft.Files.{FilePath}
use uft.ByteBuffer.{
  ByteBuffer, read_bool, read_bytes, read_u8, read_u32, read_u64, write_u8, write_bytes,
}
use uft.Session.{
  OpCode, get_file_list, get_file_list_result, transmit_file, transmit_file_hash,
  transmit_file_chunk, transmit_file_chunk_result, FileInfo, new_file_info, c_string, assign,
}
use uft.Session.Info.{get_file_info, get_files_in_path, is_present}
use uft.Session.Listing.{
  list_capacity, list_writes, send_file_list, read_file_info, read_entries, receive_file_list,
}
use uft.Session.Packet.{read_next_packet}
use uft.Session.Transmit.{
  transmit_capacity, transmit_writes, local_end, exchange, start_transfer, answering_end, opposite,
  answer_transfer, handle_packet, end_loop, update_loop,
}
use uft.Session.Conduct.{Conduct, less_one, Goes, Goes-after}
use uft.Session.Conduct.Packets.{send_op-Goes, read_packet-Goes, field-Goes, break_off-Leads}
use uft.Session.Conduct.Loops.{
  less_one-le, less_one-small, never, send_file_chunks-Goes, receive_file_chunks-Goes,
}

module _ {U : Type 0} {env : Env U} (conduct : Conduct env) where
  open conduct use {Holds, Stuck}

  send_file_list-Goes : (k : ℕ) (path : FilePath) → Goes conduct k (send_file_list env path)
  unfolding send_file_list
  send_file_list-Goes k path =
      Leads-state (λ w. get_files_in_path env.os w.files path false) _
        λ infos.
          send_op-Goes conduct k get_file_list_result (list_capacity infos) (list_writes infos)

  read_file_info-Goes : (k : ℕ) (packet : ByteBuffer) → Goes conduct k (read_file_info env packet)
  unfolding read_file_info
  read_file_info-Goes k packet = Leads-bind _ _ (field-Goes conduct k read_u8 packet) λ a.
      Leads-bind _ _ (field-Goes conduct k (read_bytes a.0) a.1) λ b.
        Leads-bind _ _ (field-Goes conduct k read_u64 b.1)
          λ c. Leads-bind _ _ (field-Goes conduct k read_u32 c.1) λ d. Leads-pure _

  read_entries-Goes :
      (k : ℕ) (n : ℕ) (packet : ByteBuffer) (files : List FileInfo)
      → Goes conduct k (read_entries env n packet files)
  unfolding read_entries
  read_entries-Goes k zero packet files = Leads-pure files
  read_entries-Goes k (suc n) packet files =
      Leads-bind _ _ (read_file_info-Goes k packet)
        λ a. read_entries-Goes k n a.1 (files ++ (a.0 ∷ []))

  pub receive_file_list-Goes :
      (k : ℕ) (path : FilePath) → Goes conduct k (receive_file_list env path)
  unfolding receive_file_list
  receive_file_list-Goes k path =
      Leads-bind _ _
        (send_op-Goes conduct k get_file_list (1 + length path)
          (write_u8 (length path % 256) ∷ write_bytes path ∷ []))
        λ u. Leads-bind _ _ (read_packet-Goes conduct k get_file_list_result) λ p.
          Leads-bind _ _ (field-Goes conduct k read_bool p) λ a.
            Leads-test a.0 _ _
              (Leads-bind _ _ (field-Goes conduct k read_u32 a.1)
                λ b. read_entries-Goes k b.0 b.1 [])
              (Leads-throw remote_error)

  local_end-Goes :
      (k : ℕ) (source destination : FilePath) (direction : ℕ)
      → Goes conduct k (local_end env source destination direction)
  unfolding local_end
  local_end-Goes k source destination zero =
      Leads-state (λ w. get_file_info env.os w.files source new_file_info true) _
        λ a.
          Leads-test (is_present a.0) _ _
            (Leads-pure (record { local = a.1; remote_path = assign destination }))
            (Leads-throw filesystem_file_not_found)
  local_end-Goes k source destination (suc zero) =
      Leads-state (λ w. get_file_info env.os w.files destination new_file_info true) _
        λ a. Leads-pure (record {
          local = if is_present a.0 then a.1 else record (a.1) { path = assign destination };
          remote_path = assign source;
        })
  local_end-Goes k source destination (suc (suc n)) = Leads-pure _

  exchange-Goes :
      (k : ℕ)
      → k ≤ env.fuel
      → (direction : ℕ) (local remote : FileInfo) (reporting : Bool)
      → Goes conduct k (exchange env direction local remote reporting)
  unfolding exchange
  exchange-Goes k l zero local remote reporting =
      send_file_chunks-Goes conduct k l local remote reporting
  exchange-Goes k l (suc zero) local remote reporting =
      receive_file_chunks-Goes conduct k l local remote reporting
  exchange-Goes k l (suc (suc n)) local remote reporting = break_off-Leads conduct k k

  pub start_transfer-Goes :
      (k : ℕ)
      → k ≤ env.fuel
      → (source destination : FilePath) (direction : ℕ) (reporting : Bool)
      → Goes conduct k (start_transfer env source destination direction reporting)
  unfolding start_transfer
  start_transfer-Goes k l source destination direction reporting =
      Leads-bind _ _ (local_end-Goes k source destination direction) λ ends.
        Leads-bind _ _
          (send_op-Goes conduct k transmit_file (transmit_capacity ends.remote_path)
            (transmit_writes ends.remote_path ends.local direction))
          λ u. Leads-bind _ _ (read_packet-Goes conduct k transmit_file) λ packet.
            Leads-bind _ _ (read_file_info-Goes k packet)
              λ remote. exchange-Goes k l direction ends.local remote.0 reporting

  answering_end-Goes :
      (k : ℕ) (remote : FileInfo) (direction : ℕ)
      → Goes conduct k (answering_end env remote direction)
  unfolding answering_end
  answering_end-Goes k remote direction =
      Leads-state (λ w. get_file_info env.os w.files (c_string remote.path) new_file_info true) _
        λ a. Leads-test (is_present a.0) _ _ (Leads-pure a.1) (
          Leads-count direction _ _
            (Leads-pure (record (a.1) { path = assign (c_string remote.path) }))
            λ n. Leads-count n _ _ (break_off-Leads conduct k k) λ m. Leads-pure a.1)

  answer_transfer-Goes :
      (k : ℕ)
      → k ≤ env.fuel
      → (remote : FileInfo) (direction : ℕ) → Goes conduct k (answer_transfer env remote direction)
  unfolding answer_transfer
  answer_transfer-Goes k l remote direction =
      Leads-bind _ _ (answering_end-Goes k remote direction) λ local.
        Leads-bind _ _
          (send_op-Goes conduct k transmit_file (transmit_capacity local.path)
            (transmit_writes local.path local direction))
          λ u. exchange-Goes k l (opposite env direction) local remote false

  handle_packet-Goes :
      (k : ℕ)
      → k ≤ env.fuel
      → (op : OpCode) (buffer : ByteBuffer) → Goes conduct k (handle_packet env op buffer)
  unfolding handle_packet
  handle_packet-Goes k l get_file_list buffer =
      Leads-bind _ _ (field-Goes conduct k read_u8 buffer) λ a.
        Leads-bind _ _ (field-Goes conduct k (read_bytes a.0) a.1)
          λ b. send_file_list-Goes k (c_string b.0)
  handle_packet-Goes k l transmit_file buffer =
      Leads-bind _ _ (read_file_info-Goes k buffer)
        λ a. Leads-bind _ _ (field-Goes conduct k read_u8 a.1) λ b. answer_transfer-Goes k l a.0 b.0
  handle_packet-Goes k l get_file_list_result buffer = Leads-throw network_api_error
  handle_packet-Goes k l transmit_file_hash buffer = Leads-throw network_api_error
  handle_packet-Goes k l transmit_file_chunk buffer = Leads-throw network_api_error
  handle_packet-Goes k l transmit_file_chunk_result buffer = Leads-throw network_api_error

  end_loop-Goes :
      (k : ℕ) (c : Code) (w : World U)
      → Holds k w
      → After Stuck (Holds k) (Holds k) (end_loop env c w)
  end_loop-Goes k c w h = ground arith

  after_packet :
      (fuel k : ℕ)
      → k ≤ env.fuel
      → (o : Outcome (World U) (OpCode × ByteBuffer))
      → Goes conduct (less_one k) (update_loop env fuel)
      → After Stuck (Holds k) (Holds (less_one k)) o
      → After Stuck (Holds k) (Holds k) (elim o [
        | ok (op, buffer) w' ↦ (handle_packet env op buffer >> update_loop env fuel) w'
        | fail c w' ↦ end_loop env c w'
        | crash ↦ crash
        | stuck ↦ stuck
      ])
  after_packet fuel k l (ok (op, buffer) w) rest h =
      Goes-after conduct k (handle_packet env op buffer >> update_loop env fuel) w
        (Leads-bind _ _ (handle_packet-Goes (less_one k) (less_one-small k env.fuel l) op buffer)
          λ u. rest)
        h
  after_packet fuel k l (fail c w) rest h = end_loop-Goes k c w h
  after_packet fuel k l crash rest h = tt
  after_packet fuel k l stuck rest h = h

  pub update_loop-Goes :
      (fuel k : ℕ) → k ≤ fuel → k ≤ env.fuel → Goes conduct k (update_loop env fuel)
  unfolding update_loop
  update_loop-Goes zero k l m = Leads-stuck (never conduct k l)
  update_loop-Goes (suc fuel) k l m = record {
    at = λ w h.
        after_packet fuel k m (read_next_packet env false w)
          (update_loop-Goes fuel (less_one k) (less_one-le k fuel l) (less_one-small k env.fuel m))
          ((conduct.hears k false).at w h);
  }
