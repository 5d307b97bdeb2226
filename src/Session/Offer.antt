-- ===== src/Session/Offer.antt =====
-- The packet TransmitFile of UFT/UFTSession.hpp, with which either side of a transfer offers its
-- file, and what GetFileInfo puts into it.
use uft.Prelude.{
  ℕ, zero, suc, ◌+◌, ◌%◌, ◌^◌, ◌<◌, ◌≡◌, refl, sym, ap, ◌∙◌, arith, Bool, true, not, ◌&&◌, List, [],
  ◌∷◌, ◌++◌, append-nil, append_assoc, length, length-append, take_all, Option, none, some, ok, ltb,
  ◌==◌,
}
use uft.World.{World, Env}
use uft.Files.{FilePath, Files, Os, found, absent}
use uft.BitConverter.Order.{big_endian, length-big_endian}
use uft.ByteBuffer.Laws.{unread}
use uft.ByteBuffer.Fields.{
  read_u8-Reads, read_u32-Reads, read_u64-Reads, read_bytes-Reads, write_u8-Writes,
  write_u32-Writes, write_u64-Writes, write_bytes-Writes,
}
use uft.Session.{FileInfo, new_file_info, assign, c_string, transmit_file}
use uft.Session.Info.{present, missing, get_file_info}
use uft.Session.Packet.{send_op, header_size}
use uft.Session.Listing.{read_file_info}
use uft.Session.Transmit.{transmit_capacity, transmit_writes}
use uft.Session.Wire.{packet, flat, send_op_lem}
use uft.Session.Exchange.{Talk, of_sent}
use uft.Socket.Delivery.{Link, IsUp, at}

-- A path that String8 holds whole, as a C string.
abbrev pub no_zero : List ℕ → Bool
no_zero [] = true
no_zero (b ∷ bs) = not (b == 0) && no_zero bs

abbrev pub is_path : FilePath → Bool
is_path p = ltb (length p) 256 && no_zero p

pub c_string_whole : (p : List ℕ) → no_zero p ≡ true → c_string p ≡ p
unfolding c_string
c_string_whole [] h = refl
c_string_whole (zero ∷ p) h = cc
c_string_whole (suc b ∷ p) h = ap (◌∷◌ (suc b)) (c_string_whole p (ground arith))

pub assign_whole : (p : FilePath) → is_path p ≡ true → assign p ≡ p
unfolding assign
assign_whole p h = take_all (length p % 256) p (ground arith)

pub path_string : (p : FilePath) → is_path p ≡ true → c_string p ≡ p
path_string p h = c_string_whole p (ground arith)

-- stat64 tells the size of a file that is there, and no more of another than that it is absent.
pub record Stats (os : Os) : Type 0 where
  pub mtime : Files → FilePath → ℕ
  pub tells :
      (fs : Files) (p : FilePath)
      → os.stat fs p ≡ elim (fs p) [ none ↦ absent | some c ↦ found (length c) (mtime fs p) ]

-- The FileInfo of a path with this content.
abbrev pub described : ℕ → FilePath → Option (List ℕ) → FileInfo
described m p none = record { path = p; size = 0; timestamp = 0 }
described m p (some c) = record { path = p; size = length c; timestamp = m % 2 ^ 32 }

pub get_file_info-present :
    (os : Os) (stats : Stats os) (fs : Files) (p : FilePath) (c : List ℕ)
    → is_path p ≡ true
    → fs p ≡ some c
    → length c < 2 ^ 64
    → get_file_info os fs p new_file_info true ≡ (present, described (stats.mtime fs p) p (some c))
unfolding get_file_info
get_file_info-present os stats fs p c h e k =
    let told = stats.tells fs p in
    let whole = assign_whole p h in
    let small : length c % 2 ^ 64 ≡ length c = omega arith in ground arith

pub get_file_info-missing :
    (os : Os) (stats : Stats os) (fs : Files) (p : FilePath)
    → fs p ≡ none
    → get_file_info os fs p new_file_info true ≡ (missing, new_file_info)
unfolding get_file_info
get_file_info-missing os stats fs p e = let told = stats.tells fs p in ground arith

-- The bytes of a FileInfo on the wire.
abbrev pub info_bytes : FileInfo → List (List ℕ) → List (List ℕ)
info_bytes info rest =
    (length info.path ∷ [])
    ∷ info.path
    ∷ big_endian 8 info.size
    ∷ big_endian 4 info.timestamp
    ∷ rest

abbrev pub offer : FileInfo → ℕ → List ℕ
offer info direction = packet transmit_file (flat (info_bytes info ((direction ∷ []) ∷ [])))

-- What the fields of a FileInfo can hold.
pub record Fits (info : FileInfo) : Type 0 where
  pub path_fits : length info.path < 256
  pub size_fits : info.size < 2 ^ 64
  pub timestamp_fits : info.timestamp < 2 ^ 32

pub info_size :
    (info : FileInfo) (rest : List (List ℕ))
    → length (flat (info_bytes info rest)) ≡ 1 + length info.path + 8 + 4 + length (flat rest)
info_size info rest = omega (
  arith,
  length-append info.path (big_endian 8 info.size ++ (big_endian 4 info.timestamp ++ flat rest)),
  length-append (big_endian 8 info.size) (big_endian 4 info.timestamp ++ flat rest),
  length-append (big_endian 4 info.timestamp) (flat rest),
  length-big_endian 8 info.size,
  length-big_endian 4 info.timestamp,
)

module _ {U : Type 0} (env : Env U) where
  -- A FileInfo is read back from its bytes, wherever they stand.
  pub read_file_info_lem :
      (info : FileInfo) (xs : List ℕ) (rest : List (List ℕ)) (m : ℕ) (w : World U)
      → Fits info
      → length xs + length (flat (info_bytes info rest)) < 2 ^ 31
      → read_file_info env (unread xs (flat (info_bytes info rest)) m) w
        ≡ ok (info, unread (xs ++ flat (info_bytes info [])) (flat rest) m) w
  unfolding read_file_info
  read_file_info_lem info xs rest m w f h =
      let n = length info.path ∷ [] in
      let p = info.path in
      let s = big_endian 8 info.size in
      let t = big_endian 4 info.timestamp in
      let y = flat rest in
      let size = info_size info rest in
      let ls = length-big_endian 8 info.size in
      let lt_ = length-big_endian 4 info.timestamp in
      let a₁ = length-append xs n in
      let a₂ = length-append (xs ++ n) p in
      let a₃ = length-append ((xs ++ n) ++ p) s in
      let b₁ = length-append p (s ++ (t ++ y)) in
      let b₂ = length-append s (t ++ y) in
      let b₃ = length-append t y in
      let r₁ = read_u8-Reads (length info.path) xs (p ++ (s ++ (t ++ y))) m (omega arith) in
      let r₂ = read_bytes-Reads p (xs ++ n) (s ++ (t ++ y)) m (omega arith) in
      let r₃ = read_u64-Reads info.size f.size_fits ((xs ++ n) ++ p) (t ++ y) m (omega arith) in
      let r₄ =
        read_u32-Reads info.timestamp f.timestamp_fits (((xs ++ n) ++ p) ++ s) y m (omega arith) in
      let run : read_file_info env (unread xs (flat (info_bytes info rest)) m) w
          ≡ ok (info, unread ((((xs ++ n) ++ p) ++ s) ++ t) y m) w =
        ground arith in
      run
      ∙ ap (λ (front : List ℕ). ok (info, unread front y m) w)
          (append_assoc ((xs ++ n) ++ p) s t
            ∙ append_assoc (xs ++ n) p (s ++ t)
            ∙ append_assoc xs n (p ++ (s ++ t))
            ∙ ap (λ (l : List ℕ). xs ++ (n ++ (p ++ (s ++ l)))) (sym (append-nil t)))

module _ {U : Type 0} (env : Env U) (link : Link env.udt) where
  open link use {queues.{incoming, outgoing, waits}}

  -- The fuel for the packet of an offer.
  abbrev pub OfferFits : U → Type 0
  OfferFits u = header_size + 270 + waits u < env.fuel

  pub send_offer_lem :
      (info : FileInfo) (path : FilePath) (direction : ℕ) (w : World U)
      → IsUp env link w.sock
      → Fits (record info { path = path })
      → direction < 256
      → OfferFits w.net
      → (v : U) × (send_op env transmit_file
            (transmit_capacity path)
            (transmit_writes path info direction)
            w
          ≡ ok tt (at env link w v))
        × Talk env link (offer (record info { path = path }) direction) [] w.net v
  send_offer_lem info path direction w up f d k =
      let o = record info { path = path } in
      let last = (direction ∷ []) ∷ [] in
      let size = info_size o last in
      let short = f.path_fits in
      let (v, run, moved) =
        send_op_lem env link transmit_file (transmit_capacity path)
          (transmit_writes path info direction) (info_bytes o last) w
          (
            write_u8-Writes (length path) short,
            (
              write_bytes-Writes path,
              (
                write_u64-Writes info.size,
                (write_u32-Writes info.timestamp, (write_u8-Writes direction d, tt)),
              ),
            ),
          )
          (omega arith) up (omega arith) (omega arith) in
      (v, run, of_sent env link (offer o direction) w.net v moved)
