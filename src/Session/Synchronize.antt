-- ===== src/Session/Synchronize.antt =====
-- TransmitFile and TransmitFile2 of UFT/UFTSession.hpp, the chunks of both against each other.
use uft.Prelude.{ℕ, ◌≤◌, ◌≡◌, subst, ◌++◌, true, false, List, length, Bool, some}
use uft.World.{World, Env}
use uft.Files.{Mode}
use uft.Session.{FileInfo, c_string}
use uft.Session.Sender.{send_file_chunks}
use uft.Session.Receiver.{receive_file_chunks}
use uft.Session.Exchange.{Healthy, Enough}
use uft.Session.Plan.{afresh, tells_apart, merged-beyond, whole_out, whole_in}
use uft.Session.Sending.{Runs}
use uft.Session.SendFile.{Offered, send_file_chunks-whole, send_file_chunks-compared}
use uft.Session.Receiving.{Fills}
use uft.Session.ReceiveFile.{
  compared_words, compared_answers, receive_file_chunks-whole, receive_file_chunks-compared,
}
use uft.Socket.Delivery.{Link, IsUp}

-- One side of a transfer, connected, with the words of the other in front of it.
pub record Ready {U : Type 0} (env : Env U) (link : Link env.udt) (words more : List ℕ)
    (w : World U) : Type 0 where
  pub is_up : IsUp env link w.sock
  pub healthy : Healthy env
  pub heard : link.queues.incoming w.net ≡ words ++ more
  pub enough : Enough env link w.net

module _ {U : Type 0} (env : Env U) (link : Link env.udt) where
  -- SendFileChunks and ReceiveFileChunks where the receiver has a file `old`, not longer than the
  -- sender's `content` and not empty with timestamp 0. Both FileInfos have the sizes of the files,
  -- the files open, both sides are connected over a link that stays up and work with zlib and a
  -- disk as Healthy says, the content is shorter than 2 ^ 63 and its length and the largest packet
  -- are within the fuel, each side hears what the plan gives to the other, and no chunk of `old`
  -- that differs from the sender's has its size and hash. Then both end well, the sender has said
  -- exactly what the receiver takes and the receiver what the sender takes, and the receiver's
  -- file is `content`, with no other file touched.
  pub synchronize_compared :
      (mine theirs : FileInfo) (reporting reporting' : Bool) (content old more more' : List ℕ)
      (sender receiver : World U)
      → Ready env link (compared_answers env link content old) more sender
      → Ready env link (compared_words env link content old) more' receiver
      → Offered env link sender mine content
      → receiver.files (c_string theirs.path) ≡ some old
      → env.os.may_open receiver.files (c_string theirs.path) Mode.updating ≡ true
      → theirs.size ≡ length old
      → length old ≤ length content
      → afresh theirs.size theirs.timestamp mine.size ≡ false
      → tells_apart env env.fuel content old ≡ true
      → Runs env link
          (send_file_chunks env mine theirs reporting)
          tt
          (compared_words env link content old)
          (compared_answers env link content old)
          sender
        × Fills env link
            (receive_file_chunks env theirs mine reporting')
            tt
            (c_string theirs.path)
            content
            (compared_answers env link content old)
            (compared_words env link content old)
            receiver
  synchronize_compared mine theirs reporting reporting' content old more more' sender receiver s r f
        there opens z l e t =
      (
        send_file_chunks-compared env link mine theirs reporting content old more sender s.is_up
            s.healthy f e z l s.heard s.enough,
        subst
            (λ (c : List ℕ).
              Fills env link (receive_file_chunks env theirs mine reporting') tt
                (c_string theirs.path) c (compared_answers env link content old)
                (compared_words env link content old) receiver)
            (merged-beyond env env.fuel content old t)
            (receive_file_chunks-compared env link theirs mine reporting' content old more' receiver
              r.is_up r.healthy there opens z f.size_eq f.small f.enough l e r.heard r.enough),
      )

  -- SendFileChunks and ReceiveFileChunks where the receiver has no file, as size 0 with timestamp
  -- 0 says, or one longer than the sender's `content`. The sender's FileInfo has the size of its
  -- file, both files open, both sides are connected over a link that stays up and work with zlib
  -- and a disk as Healthy says, the content is shorter than 2 ^ 63 and its length and the largest
  -- packet are within the fuel, and each side hears what the plan gives to the other. Then both
  -- end well, the sender has said exactly what the receiver takes and the receiver what the sender
  -- takes, and the receiver's file is `content`, with no other file touched.
  pub synchronize_whole :
      (mine theirs : FileInfo) (reporting reporting' : Bool) (content more more' : List ℕ)
      (sender receiver : World U)
      → Ready env link (whole_in env env.fuel content) more sender
      → Ready env link (whole_out env env.fuel 0 content) more' receiver
      → Offered env link sender mine content
      → env.os.may_open receiver.files (c_string theirs.path) Mode.truncating ≡ true
      → afresh theirs.size theirs.timestamp mine.size ≡ true
      → Runs env link
          (send_file_chunks env mine theirs reporting)
          tt
          (whole_out env env.fuel 0 content)
          (whole_in env env.fuel content)
          sender
        × Fills env link
            (receive_file_chunks env theirs mine reporting')
            tt
            (c_string theirs.path)
            content
            (whole_in env env.fuel content)
            (whole_out env env.fuel 0 content)
            receiver
  synchronize_whole mine theirs reporting reporting' content more more' sender receiver s r f opens
        e =
      (
        send_file_chunks-whole env link mine theirs reporting content more sender s.is_up s.healthy
            f e s.heard s.enough,
        receive_file_chunks-whole env link theirs mine reporting' content more' receiver r.is_up
            r.healthy opens f.size_eq f.small f.enough e r.heard r.enough,
      )
