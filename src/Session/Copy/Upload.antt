-- ===== src/Session/Copy/Upload.antt =====
-- A transfer upwards of UFT/UFTSession.hpp: TransmitFile on the side that has the file, HandlePacket
-- with TransmitFile2 on the other.
use uft.Prelude.{
  ℕ, ◌^◌, ◌≤◌, ◌<◌, ◌≡◌, refl, ◌∙◌, arith, Bool, true, false, List, [], ◌++◌, append_assoc, length,
  Option, some,
}
use uft.World.{World, Env}
use uft.Files.{FilePath}
use uft.Session.{transmit_file, up}
use uft.Session.Transmit.{start_transfer, handle_packet, exchange}
use uft.Session.Exchange.{Talk-trans, Talk-left}
use uft.Session.Offer.{is_path, path_string, Stats, described, offer}
use uft.Session.Meeting.{
  bytes_of, is_fresh, sender_words, receiver_words, tells, sender_side, receiver_side,
}
use uft.Session.Opening.{offered_packet, start_transfer_lem, handle_packet-transmit_file}
use uft.Session.Ends.{Connected, Source, Target, described-Fits, local_end-up, answering_end-up}
use uft.Session.Sending.{Runs}
use uft.Session.Receiving.{Fills}
use uft.Socket.Delivery.{Link, at}
use uft.Session.Copy.{Source-Offered, source_words, target_words}

module _ {U : Type 0} (env : Env U) (link : Link env.udt) (stats : Stats env.os) where
  open link use {queues.{incoming, outgoing, waits}}

  pub upload_asking :
      (source destination : FilePath) (m : ℕ) (fresh reporting : Bool) (content more : List ℕ)
      (o : Option (List ℕ)) (w : World U)
      → Connected env link w
      → Source env link w.files source content
      → is_path destination ≡ true
      → length (bytes_of o) < 2 ^ 63
      → is_fresh m o content ≡ fresh
      → incoming w.net ≡ target_words env link stats m destination up fresh content o ++ more
      → Runs env link
          (start_transfer env source destination up reporting)
          tt
          (source_words env link stats (stats.mtime w.files source) destination up fresh content o)
          (target_words env link stats m destination up fresh content o)
          w
  unfolding exchange
  upload_asking source destination m fresh reporting content more o w c s d z b i =
      let m' = stats.mtime w.files source in
      let mine = described m' source (some content) in
      let theirs = described m destination o in
      let answers = receiver_words env link fresh content (bytes_of o) in
      let i' = i ∙ append_assoc (offer theirs up) answers more in
      let (u, run, talk) =
        start_transfer_lem env link source destination up up reporting
          (record { local = mine; remote_path = destination }) theirs (answers ++ more) w
          (local_end-up env stats source destination content w s.source_path d s.source_there
            s.source_small)
          c.is_up (described-Fits m' destination (some content) d s.source_small)
          (described-Fits m destination o d z) (omega arith) i' c.offer_fits in
      let i₂ =
        Talk-left env link (offer (described m' destination (some content)) up) (offer theirs up)
          (answers ++ more) w.net u talk i' in
      let enough = c.enough in
      let (v, rs, run', talk') =
        sender_side env link fresh reporting mine m destination o content more (at env link w u)
          c.is_up c.healthy (Source-Offered env link stats w u m' source content s) b i₂
          (omega (arith, talk)) in
      (
        v,
        rs,
        run ∙ run',
        Talk-trans env link (offer (described m' destination (some content)) up)
            (sender_words env link fresh content (bytes_of o)) (offer theirs up) answers w.net u v
            talk talk',
      )

  pub upload_answering :
      (destination : FilePath) (m' : ℕ) (fresh : Bool) (content more : List ℕ) (o : Option (List ℕ))
      (w : World U)
      → Connected env link w
      → Target env link w.files destination o fresh
      → length content < 2 ^ 63
      → length content ≤ env.fuel
      → is_fresh (stats.mtime w.files destination) o content ≡ fresh
      → tells env link fresh content (bytes_of o) ≡ true
      → incoming w.net ≡ sender_words env link fresh content (bytes_of o) ++ more
      → Fills env link
          (handle_packet env transmit_file
            (offered_packet (described m' destination (some content)) up))
          tt
          destination
          content
          (target_words env link stats
            (stats.mtime w.files destination)
            destination
            up
            fresh
            content
            o)
          (sender_words env link fresh content (bytes_of o))
          w
  unfolding exchange
  upload_answering destination m' fresh content more o w c t s k b a i =
      let m = stats.mtime w.files destination in
      let mine = described m destination o in
      let theirs = described m' destination (some content) in
      let words = sender_words env link fresh content (bytes_of o) in
      let (u, run, talk) =
        handle_packet-transmit_file env link up theirs mine w
          (answering_end-up env stats theirs destination o w refl t.target_path t.target_there
            t.target_small)
          c.is_up (described-Fits m' destination (some content) t.target_path s)
          (described-Fits m destination o t.target_path t.target_small) (omega arith)
          c.offer_fits in
      let i₂ = Talk-left env link (offer mine up) [] (words ++ more) w.net u talk i in
      let enough = c.enough in
      let (v, rs, fs, run', holds, talk') =
        receiver_side env link fresh false theirs m destination o content more (at env link w u)
          c.is_up c.healthy t.target_there (path_string destination t.target_path) t.target_opens
          refl s k b a i₂ (omega (arith, talk)) in
      (
        v,
        rs,
        fs,
        run ∙ run',
        holds,
        Talk-trans env link (offer mine up) (receiver_words env link fresh content (bytes_of o)) []
            words w.net u v talk talk',
      )
