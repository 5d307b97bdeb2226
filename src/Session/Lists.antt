-- ===== src/Session/Lists.antt =====
-- The file lists of UFT/UFTSession.hpp on the wire: what SendFileList says and ReceiveFileList reads.
pub mod Exchange
pub mod Directory
pub mod Agreement
use uft.Prelude.{
  ℕ, zero, suc, ◌+◌, ◌%◌, ◌^◌, ◌≤◌, ◌<◌, ◌≡◌, refl, sym, ap, ◌∙◌, arith, Bool, true, false, List,
  [], ◌∷◌, ◌++◌, append-nil, append_assoc, length, length-append, Option, none, some, ok, fail,
  remote_error, Outcome,
}
use uft.World.{World, Env}
use uft.Files.{Os, Files, FilePath, Entry}
use uft.BitConverter.Order.{big_endian, length-big_endian}
use uft.ByteBuffer.{ByteBuffer, Writing}
use uft.ByteBuffer.Laws.{unread}
use uft.ByteBuffer.Fields.{
  bool_byte, write_bool-Writes, write_u8-Writes, write_u32-Writes, write_u64-Writes,
  write_bytes-Writes,
}
use uft.Session.{FileInfo, assign, get_file_list, get_file_list_result}
use uft.Session.Info.{Answer, get_file_info, list_entries, get_files_in_path}
use uft.Session.Packet.{header_size}
use uft.Session.Listing.{
  entry_size, entries_size, entry_writes, entries_writes, list_capacity, list_writes, read_entries,
}
use uft.Session.Wire.{packet, flat, Layout}
use uft.Session.Offer.{Fits, info_bytes, info_size, read_file_info_lem}

abbrev pub entries_bytes : List FileInfo → List (List ℕ)
entries_bytes [] = []
entries_bytes (info ∷ infos) = info_bytes info (entries_bytes infos)

abbrev pub list_bytes : Option (List FileInfo) → List (List ℕ)
list_bytes none = bool_byte false ∷ []
list_bytes (some infos) = bool_byte true ∷ big_endian 4 (length infos) ∷ entries_bytes infos

-- The packets GetFileList and GetFileListResult.
abbrev pub list_request : FilePath → List ℕ
list_request path = packet get_file_list (flat ((length path ∷ []) ∷ path ∷ []))

abbrev pub list_message : Option (List FileInfo) → List ℕ
list_message infos = packet get_file_list_result (flat (list_bytes infos))

abbrev pub AllFit : List FileInfo → Type 0
AllFit [] = Unit
AllFit (info ∷ infos) = Fits info × AllFit infos

abbrev pub ListFits : Option (List FileInfo) → Type 0
ListFits none = Unit
ListFits (some infos) = AllFit infos

entries_bytes-size :
    (infos : List FileInfo) → length (flat (entries_bytes infos)) ≡ entries_size infos
entries_bytes-size [] = refl
entries_bytes-size (info ∷ infos) =
    omega (arith, info_size info (entries_bytes infos), entries_bytes-size infos)

pub count-entries_size : (infos : List FileInfo) → length infos ≤ entries_size infos
count-entries_size [] = omega arith
count-entries_size (info ∷ infos) = omega (arith, count-entries_size infos)

pub list_bytes-size :
    (infos : Option (List FileInfo)) → list_capacity infos ≡ length (flat (list_bytes infos))
list_bytes-size none = refl
list_bytes-size (some infos) = omega (
  arith,
  entries_bytes-size infos,
  length-append (big_endian 4 (length infos)) (flat (entries_bytes infos)),
  length-big_endian 4 (length infos),
)

entries_writes-Layout :
    (infos : List FileInfo) → AllFit infos → Layout (entries_writes infos) (entries_bytes infos)
entries_writes-Layout [] f = tt
entries_writes-Layout (info ∷ infos) (f, fs) = (
  write_u8-Writes (length info.path) f.path_fits,
  (
    write_bytes-Writes info.path,
    (write_u64-Writes info.size, (write_u32-Writes info.timestamp, entries_writes-Layout infos fs)),
  ),
)

pub list_writes-Layout :
    (infos : Option (List FileInfo))
    → ListFits infos
    → list_capacity infos < 2 ^ 31
    → Layout (list_writes infos) (list_bytes infos)
list_writes-Layout none f h = (write_bool-Writes false, tt)
list_writes-Layout (some infos) f h =
    let small : length infos % 2 ^ 32 ≡ length infos = omega (arith, count-entries_size infos) in
    (
      write_bool-Writes true,
      (rw small (write_u32-Writes (length infos)), entries_writes-Layout infos f),
    )

module _ {U : Type 0} (env : Env U) where
  pub read_entries_lem :
      (infos files : List FileInfo) (xs : List ℕ) (m : ℕ) (w : World U)
      → AllFit infos
      → length xs + length (flat (entries_bytes infos)) < 2 ^ 31
      → read_entries env (length infos) (unread xs (flat (entries_bytes infos)) m) files w
        ≡ ok (files ++ infos) w
  unfolding read_entries
  read_entries_lem [] files xs m w f h = ap (λ (l : List FileInfo). ok l w) (sym (append-nil files))
  read_entries_lem (info ∷ infos) files xs m w (f, fs) h =
      let front = flat (info_bytes info []) in
      let size = info_size info (entries_bytes infos) in
      let size' = info_size info [] in
      let split = length-append xs front in
      let told = read_file_info_lem env info xs (entries_bytes infos) m w f h in
      let rest = read_entries_lem infos (files ++ (info ∷ [])) (xs ++ front) m w fs (omega arith) in
      ground (arith, append_assoc files (info ∷ []) infos)
