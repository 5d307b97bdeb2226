-- ===== src/Session/Ends.antt =====
-- The files at the two ends of a transfer of UFT/UFTSession.hpp, and the FileInfos that TransmitFile
-- and TransmitFile2 find for them.
use uft.Prelude.{
  ℕ, ◌^◌, ◌≤◌, ◌<◌, ◌≡◌, refl, ap, ◌∙◌, arith, Bool, true, List, length, Option, none, some, ok,
}
use uft.World.{World, Env}
use uft.Files.{FilePath, Files, Mode}
use uft.Session.{FileInfo, c_string, up, down}
use uft.Session.Transmit.{local_end, answering_end}
use uft.Session.Exchange.{Healthy, Enough}
use uft.Session.Offer.{
  is_path, assign_whole, path_string, Stats, described, get_file_info-present,
  get_file_info-missing, Fits, OfferFits,
}
use uft.Session.Meeting.{bytes_of, receiving_mode}
use uft.Socket.Delivery.{Link, IsUp}

module _ {U : Type 0} (env : Env U) (link : Link env.udt) where
  -- A session over a link that stays up, with fuel for the largest packets.
  pub record Connected (w : World U) : Type 0 where
    pub is_up : IsUp env link w.sock
    pub healthy : Healthy env
    pub enough : Enough env link w.net
    pub offer_fits : OfferFits env link w.net

  -- The file that is to be copied.
  pub record Source (fs : Files) (p : FilePath) (content : List ℕ) : Type 0 where
    pub source_path : is_path p ≡ true
    pub source_there : fs p ≡ some content
    pub source_opens : env.os.may_open fs p Mode.reading ≡ true
    pub source_small : length content < 2 ^ 63
    pub source_enough : length content ≤ env.fuel

  -- The file that is to become the copy, which may be absent.
  pub record Target (fs : Files) (p : FilePath) (o : Option (List ℕ)) (fresh : Bool) : Type 0 where
    pub target_path : is_path p ≡ true
    pub target_there : fs p ≡ o
    pub target_opens : env.os.may_open fs p (receiving_mode env link fresh) ≡ true
    pub target_small : length (bytes_of o) < 2 ^ 63

pub described-Fits :
    (m : ℕ) (p : FilePath) (o : Option (List ℕ))
    → is_path p ≡ true
    → length (bytes_of o) < 2 ^ 63
    → Fits (described m p o)
described-Fits m p none h k = record {
  path_fits = ground arith;
  size_fits = omega arith;
  timestamp_fits = omega arith;
}
described-Fits m p (some c) h k = record {
  path_fits = ground arith;
  size_fits = omega arith;
  timestamp_fits = omega arith;
}

-- Another path has the same data.
pub described-path_change :
    (m : ℕ) (p q : FilePath) (o : Option (List ℕ))
    → record (described m p o) { path = q } ≡ described m q o
described-path_change m p q none = refl
described-path_change m p q (some c) = refl

module _ {U : Type 0} (env : Env U) (stats : Stats env.os) where
  -- TransmitFile, sending.
  pub local_end-up :
      (source destination : FilePath) (content : List ℕ) (w : World U)
      → is_path source ≡ true
      → is_path destination ≡ true
      → w.files source ≡ some content
      → length content < 2 ^ 63
      → local_end env source destination up w
        ≡ ok
            (record {
              local = described (stats.mtime w.files source) source (some content);
              remote_path = destination;
            })
            w
  unfolding local_end
  local_end-up source destination content w h k f s =
      let found_ = get_file_info-present env.os stats w.files source content h f (omega arith) in
      let whole = assign_whole destination k in ground arith

  -- TransmitFile, receiving.
  pub local_end-down :
      (source destination : FilePath) (o : Option (List ℕ)) (w : World U)
      → is_path source ≡ true
      → is_path destination ≡ true
      → w.files destination ≡ o
      → length (bytes_of o) < 2 ^ 63
      → local_end env source destination down w
        ≡ ok
            (record {
              local = described (stats.mtime w.files destination) destination o;
              remote_path = source;
            })
            w
  unfolding local_end
  local_end-down source destination none w h k f s =
      let missing_ = get_file_info-missing env.os stats w.files destination f in
      let whole = assign_whole destination k in let whole' = assign_whole source h in ground arith
  local_end-down source destination (some c) w h k f s =
      let found_ = get_file_info-present env.os stats w.files destination c k f (omega arith) in
      let whole = assign_whole source h in ground arith

  -- TransmitFile2, receiving.
  pub answering_end-up :
      (remote : FileInfo) (p : FilePath) (o : Option (List ℕ)) (w : World U)
      → remote.path ≡ p
      → is_path p ≡ true
      → w.files p ≡ o
      → length (bytes_of o) < 2 ^ 63
      → answering_end env remote up w ≡ ok (described (stats.mtime w.files p) p o) w
  unfolding answering_end
  answering_end-up remote p none w e h f s =
      let path : c_string remote.path ≡ p = ap c_string e ∙ path_string p h in
      let missing_ = get_file_info-missing env.os stats w.files p f in
      let whole = assign_whole p h in ground arith
  answering_end-up remote p (some c) w e h f s =
      let path : c_string remote.path ≡ p = ap c_string e ∙ path_string p h in
      let found_ = get_file_info-present env.os stats w.files p c h f (omega arith) in ground arith

  -- TransmitFile2, sending.
  pub answering_end-down :
      (remote : FileInfo) (p : FilePath) (content : List ℕ) (w : World U)
      → remote.path ≡ p
      → is_path p ≡ true
      → w.files p ≡ some content
      → length content < 2 ^ 63
      → answering_end env remote down w ≡ ok (described (stats.mtime w.files p) p (some content)) w
  unfolding answering_end
  answering_end-down remote p content w e h f s =
      let path : c_string remote.path ≡ p = ap c_string e ∙ path_string p h in
      let found_ = get_file_info-present env.os stats w.files p content h f (omega arith) in
      ground arith
