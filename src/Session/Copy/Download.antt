-- ===== src/Session/Copy/Download.antt =====
-- A transfer downwards of UFT/UFTSession.hpp: TransmitFile on the side that gets the file,
-- HandlePacket with TransmitFile2 on the other.
use uft.Prelude.{
  ℕ, ◌^◌, ◌≤◌, ◌<◌, ◌≡◌, refl, sym, subst, ◌∙◌, arith, Bool, true, false, List, [], ◌++◌,
  append_assoc, length, Option, some,
}
use uft.World.{World, Env}
use uft.Files.{FilePath}
use uft.Session.{FileInfo, transmit_file, down}
use uft.Session.Transmit.{start_transfer, handle_packet, exchange}
use uft.Session.Exchange.{Talk, Talk-trans, Talk-left}
use uft.Session.Offer.{is_path, path_string, Stats, described, Fits, offer}
use uft.Session.Meeting.{
  bytes_of, is_fresh, sender_words, receiver_words, tells, described-path, sender_side,
  receiver_side,
}
use uft.Session.Opening.{offered_packet, start_transfer_lem, handle_packet-transmit_file}
use uft.Session.Ends.{
  Connected, Source, Target, described-Fits, described-path_change, local_end-down,
  answering_end-down,
}
use uft.Session.Sending.{Runs}
use uft.Session.Receiving.{Fills}
use uft.Socket.Delivery.{Link, at}
use uft.Session.Copy.{Source-Offered, source_words, target_words}

module _ {U : Type 0} (env : Env U) (link : Link env.udt) (stats : Stats env.os) where
  open link use {queues.{incoming, outgoing, waits}}

  pub download_asking :
      (source destination : FilePath) (m' : ℕ) (fresh reporting : Bool) (content more : List ℕ)
      (o : Option (List ℕ)) (w : World U)
      → Connected env link w
      → Target env link w.files destination o fresh
      → is_path source ≡ true
      → length content < 2 ^ 63
      → length content ≤ env.fuel
      → is_fresh (stats.mtime w.files destination) o content ≡ fresh
      → tells env link fresh content (bytes_of o) ≡ true
      → incoming w.net ≡ source_words env link stats m' source down fresh content o ++ more
      → Fills env link
          (start_transfer env source destination down reporting)
          tt
          destination
          content
          (target_words env link stats
            (stats.mtime w.files destination)
            source
            down
            fresh
            content
            o)
          (source_words env link stats m' source down fresh content o)
          w
  unfolding exchange
  download_asking source destination m' fresh reporting content more o w c t h s k b a i =
      let m = stats.mtime w.files destination in
      let mine = described m destination o in
      let asked = described m source o in
      let theirs = described m' source (some content) in
      let words = sender_words env link fresh content (bytes_of o) in
      let i' = i ∙ append_assoc (offer theirs down) words more in
      let same = described-path_change m destination source o in
      let (u, run, talk₀) =
        start_transfer_lem env link source destination down down reporting
          (record { local = mine; remote_path = source }) theirs (words ++ more) w
          (local_end-down env stats source destination o w h t.target_path t.target_there
            t.target_small)
          c.is_up (subst Fits (sym same) (described-Fits m source o h t.target_small))
          (described-Fits m' source (some content) h s) (omega arith) i' c.offer_fits in
      let talk =
        subst (λ (f : FileInfo). Talk env link (offer f down) (offer theirs down) w.net u) same
          talk₀ in
      let i₂ =
        Talk-left env link (offer asked down) (offer theirs down) (words ++ more) w.net u talk i' in
      let enough = c.enough in
      let (v, rs, fs, run', holds, talk') =
        receiver_side env link fresh reporting theirs m destination o content more (at env link w u)
          c.is_up c.healthy t.target_there (path_string destination t.target_path) t.target_opens
          refl s k b a i₂ (omega (arith, talk)) in
      (
        v,
        rs,
        fs,
        run ∙ run',
        holds,
        Talk-trans env link (offer asked down) (receiver_words env link fresh content (bytes_of o))
            (offer theirs down) words w.net u v talk talk',
      )

  pub download_answering :
      (source : FilePath) (m : ℕ) (fresh : Bool) (content more : List ℕ) (o : Option (List ℕ))
      (w : World U)
      → Connected env link w
      → Source env link w.files source content
      → length (bytes_of o) < 2 ^ 63
      → is_fresh m o content ≡ fresh
      → incoming w.net ≡ receiver_words env link fresh content (bytes_of o) ++ more
      → Runs env link
          (handle_packet env transmit_file (offered_packet (described m source o) down))
          tt
          (source_words env link stats (stats.mtime w.files source) source down fresh content o)
          (receiver_words env link fresh content (bytes_of o))
          w
  unfolding exchange
  download_answering source m fresh content more o w c s z b i =
      let m' = stats.mtime w.files source in
      let mine = described m' source (some content) in
      let theirs = described m source o in
      let answers = receiver_words env link fresh content (bytes_of o) in
      let (u, run, talk) =
        handle_packet-transmit_file env link down theirs mine w
          (answering_end-down env stats theirs source content w (described-path m source o)
            s.source_path s.source_there s.source_small)
          c.is_up (described-Fits m source o s.source_path z)
          (described-Fits m' source (some content) s.source_path s.source_small) (omega arith)
          c.offer_fits in
      let i₂ = Talk-left env link (offer mine down) [] (answers ++ more) w.net u talk i in
      let enough = c.enough in
      let (v, rs, run', talk') =
        sender_side env link fresh false mine m source o content more (at env link w u) c.is_up
          c.healthy (Source-Offered env link stats w u m' source content s) b i₂
          (omega (arith, talk)) in
      (
        v,
        rs,
        run ∙ run',
        Talk-trans env link (offer mine down) (sender_words env link fresh content (bytes_of o)) []
            answers w.net u v talk talk',
      )
