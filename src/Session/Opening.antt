-- ===== src/Session/Opening.antt =====
-- How TransmitFile and TransmitFile2 of UFT/UFTSession.hpp begin: each side offers its file and
-- learns of the other's, and goes on to the chunks.
use uft.Prelude.{ℕ, ◌≤◌, ◌<◌, ◌≡◌, arith, Bool, false, List, [], ◌∷◌, ◌++◌, length, ok}
use uft.World.{World, Env}
use uft.Files.{FilePath}
use uft.ByteBuffer.{ByteBuffer}
use uft.ByteBuffer.Laws.{unread}
use uft.ByteBuffer.Fields.{read_u8-Reads}
use uft.Session.{FileInfo, transmit_file}
use uft.Session.Transmit.{
  TransferEnds, local_end, start_transfer, exchange, answering_end, opposite, answer_transfer,
  handle_packet,
}
use uft.Session.Wire.{flat}
use uft.Session.Reading.{read_packet_lem}
use uft.Session.Exchange.{Talk, then_got, Talk-left}
use uft.Session.Offer.{
  Fits, info_bytes, info_size, offer, OfferFits, read_file_info_lem, send_offer_lem,
}
use uft.Socket.Delivery.{Link, IsUp, at}

-- The payload of an offer.
abbrev pub offer_payload : FileInfo → ℕ → List ℕ
offer_payload info direction = flat (info_bytes info ((direction ∷ []) ∷ []))

-- The packet of an offer as HandlePacket gets it.
abbrev pub offered_packet : FileInfo → ℕ → ByteBuffer
offered_packet info direction =
    unread [] (offer_payload info direction) (length (offer_payload info direction))

pub offer_payload-short :
    (info : FileInfo) (direction : ℕ) → Fits info → length (offer_payload info direction) ≤ 270
offer_payload-short info direction f =
    omega (arith, info_size info ((direction ∷ []) ∷ []), f.path_fits)

module _ {U : Type 0} (env : Env U) (link : Link env.udt) where
  open link use {queues.{incoming, outgoing, waits}}

  -- The side that starts.
  pub start_transfer_lem :
      (source destination : FilePath) (direction theirs_direction : ℕ) (reporting : Bool)
      (ends : TransferEnds) (theirs : FileInfo) (more : List ℕ) (w : World U)
      → local_end env source destination direction w ≡ ok ends w
      → IsUp env link w.sock
      → Fits (record (ends.local) { path = ends.remote_path })
      → Fits theirs
      → direction < 256
      → incoming w.net ≡ offer theirs theirs_direction ++ more
      → OfferFits env link w.net
      → (v : U) × (start_transfer env source destination direction reporting w
          ≡ exchange env direction ends.local theirs reporting (at env link w v))
        × Talk env link
            (offer (record (ends.local) { path = ends.remote_path }) direction)
            (offer theirs theirs_direction)
            w.net
            v
  unfolding start_transfer
  start_transfer_lem source destination direction theirs_direction reporting ends theirs more w e up
        f g d i k =
      let mine = record (ends.local) { path = ends.remote_path } in
      let short = offer_payload-short theirs theirs_direction g in
      let p = offer_payload theirs theirs_direction in
      let (u, run, sent) =
        send_offer_lem env link ends.local ends.remote_path direction w up f d k in
      let i' =
        Talk-left env link (offer mine direction) [] (offer theirs theirs_direction ++ more) w.net u
          sent i in
      let (v, run', got_) =
        read_packet_lem env link transmit_file p more (at env link w u) up i' (omega arith)
          (omega (arith, sent)) in
      let told =
        read_file_info_lem env theirs [] ((theirs_direction ∷ []) ∷ []) (length p) (at env link w v)
          g (omega arith) in
      (
        v,
        ground arith,
        then_got env link (offer mine direction) (offer theirs theirs_direction) w.net u v sent
            got_,
      )

  -- The side that answers, with the packet before it.
  pub handle_packet-transmit_file :
      (direction : ℕ) (remote local : FileInfo) (w : World U)
      → answering_end env remote direction w ≡ ok local w
      → IsUp env link w.sock
      → Fits remote
      → Fits local
      → direction < 256
      → OfferFits env link w.net
      → (v : U) × (handle_packet env transmit_file (offered_packet remote direction) w
          ≡ exchange env (opposite env direction) local remote false (at env link w v))
        × Talk env link (offer local direction) [] w.net v
  unfolding handle_packet answer_transfer
  handle_packet-transmit_file direction remote local w e up f g d k =
      let p = offer_payload remote direction in
      let short = offer_payload-short remote direction f in
      let front = flat (info_bytes remote []) in
      let sizes = info_size remote [] in
      let told =
        read_file_info_lem env remote [] ((direction ∷ []) ∷ []) (length p) w f (omega arith) in
      let last = read_u8-Reads direction front [] (length p) (omega arith) in
      let (v, run, sent) = send_offer_lem env link local local.path direction w up g d k in
      (v, ground arith, sent)
