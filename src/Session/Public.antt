-- ===== src/Session/Public.antt =====
-- SendFile and ReceiveFile of UFT/UFTSession.hpp: a whole transfer, on the side that asks.
use uft.Prelude.{ℕ, ◌^◌, ◌≤◌, ◌<◌, ◌≡◌, Bool, true, false, List, ◌++◌, length, Option}
use uft.World.{World, Env}
use uft.Files.{FilePath}
use uft.Session.{up, down}
use uft.Session.Transmit.{start_transfer, send_file, receive_file}
use uft.Session.Offer.{is_path, Stats}
use uft.Session.Meeting.{bytes_of, is_fresh, tells}
use uft.Session.Ends.{Connected, Source, Target}
use uft.Session.Copy.{source_words, target_words}
use uft.Session.Copy.Upload.{upload_asking}
use uft.Session.Copy.Download.{download_asking}
use uft.Session.Serving.{locked, public_lem, Connected-locked}
use uft.Session.Sending.{Runs}
use uft.Session.Receiving.{Fills}
use uft.Socket.Delivery.{Link}

module _ {U : Type 0} (env : Env U) (link : Link env.udt) (stats : Stats env.os) where
  open link use {queues.{incoming, outgoing, waits}}

  -- A session between calls: nobody holds its lock.
  pub record AtRest (w : World U) : Type 0 where
    pub session : Connected env link w
    pub unlocked : w.sock.io_locked ≡ false

  -- SendFile of a session at rest, where the source opens and holds `content`, its path and the
  -- destination fit a String8, lengths are below 2 ^ 63 and within the fuel, and what a receiver
  -- with the file `o`, last changed at `m`, says comes in, with more behind it: it ends well,
  -- takes exactly those words, has said the offer of its file and then what the plan says, and no
  -- file changes.
  pub send_file-copies :
      (source destination : FilePath) (m : ℕ) (fresh reporting : Bool) (content more : List ℕ)
      (o : Option (List ℕ)) (w : World U)
      → AtRest w
      → Source env link w.files source content
      → is_path destination ≡ true
      → length (bytes_of o) < 2 ^ 63
      → is_fresh m o content ≡ fresh
      → incoming w.net ≡ target_words env link stats m destination up fresh content o ++ more
      → Runs env link
          (send_file env source destination reporting)
          tt
          (source_words env link stats (stats.mtime w.files source) destination up fresh content o)
          (target_words env link stats m destination up fresh content o)
          w
  unfolding send_file
  send_file-copies source destination m fresh reporting content more o w c s d z b i =
      let (v, rs, run, talk) =
        upload_asking env link stats source destination m fresh reporting content more o
          (locked env w) (Connected-locked env link w c.session) s d z b i in
      (
        v,
        rs,
        public_lem env (start_transfer env source destination up reporting) tt w v rs w.files
            c.session.is_up.is_connected c.unlocked run,
        talk,
      )

  -- ReceiveFile of a session at rest, where the destination holds `o`, or nothing, and opens, both
  -- paths fit a String8, lengths are below 2 ^ 63 and within the fuel, the hashes tell compared
  -- chunks apart, and what a sender of `content` says comes in, with more behind it: it ends well,
  -- takes exactly those words, has said the offer of its file and then the answers of the plan,
  -- and the destination holds `content`, with no other file touched.
  pub receive_file-copies :
      (source destination : FilePath) (m' : ℕ) (fresh reporting : Bool) (content more : List ℕ)
      (o : Option (List ℕ)) (w : World U)
      → AtRest w
      → Target env link w.files destination o fresh
      → is_path source ≡ true
      → length content < 2 ^ 63
      → length content ≤ env.fuel
      → is_fresh (stats.mtime w.files destination) o content ≡ fresh
      → tells env link fresh content (bytes_of o) ≡ true
      → incoming w.net ≡ source_words env link stats m' source down fresh content o ++ more
      → Fills env link
          (receive_file env source destination reporting)
          tt
          destination
          content
          (target_words env link stats
            (stats.mtime w.files destination)
            source
            down
            fresh
            content
            o)
          (source_words env link stats m' source down fresh content o)
          w
  unfolding receive_file
  receive_file-copies source destination m' fresh reporting content more o w c t h s k b a i =
      let (v, rs, fs, run, holds, talk) =
        download_asking env link stats source destination m' fresh reporting content more o
          (locked env w) (Connected-locked env link w c.session) t h s k b a i in
      (
        v,
        rs,
        fs,
        public_lem env (start_transfer env source destination down reporting) tt w v rs fs
            c.session.is_up.is_connected c.unlocked run,
        holds,
        talk,
      )
