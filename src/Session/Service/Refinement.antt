-- ===== src/Session/Service/Refinement.antt =====
-- Two sessions of UFT/UFTSession.hpp against the contract of Session/Service: one calls SendFile and
-- ReceiveFile, the other Update.
use uft.Prelude.{◌<◌, ◌≡◌, ◌∙◌, List, [], append-nil, length, sym}
use uft.World.{World, Env}
use uft.Session.Transmit.{update}
use uft.Session.Offer.{Stats}
use uft.Session.Public.{AtRest}
use uft.Session.Service.{Request, serve_all, ask_all, all_asking, all_answering, CanServeAll}
use uft.Session.Service.Asking.{Turns, ask_all_lem}
use uft.Session.Service.Answering.{update-serves}
use uft.Socket.Delivery.{Link}
use uft.Socket.Polling.{Idles}

module _ {U : Type 0} (env : Env U) (link : Link env.udt) (stats : Stats env.os) where
  open link use {queues.{incoming, outgoing, waits}}

  -- Two sessions at rest, each connected over a link that stays up with its lock free, zlib and a
  -- disk as Healthy says and fuel for the largest packets; one calls SendFile or ReceiveFile for
  -- each of a list of requests, the other calls Update once. Nothing makes the second wait, a
  -- receive without bytes says so, each request can be met when its turn comes (the source is
  -- there, both files open, paths and sizes fit, hashes tell compared chunks apart), there are
  -- fewer requests than fuel, and each side hears exactly what the plan gives to the other. Then
  -- both end well, each has said what the other takes, and the files on both sides are what
  -- serving the requests in order makes of them: each destination has its source's content and
  -- every other file is as before.
  pub service_refines :
      (rs : List Request) (client server : World U)
      → AtRest env link stats client
      → AtRest env link stats server
      → Idles env link
      → waits server.net ≡ 0
      → CanServeAll env link stats rs (client.files, server.files)
      → length rs < env.fuel
      → incoming client.net ≡ all_answering env link stats rs (client.files, server.files)
      → incoming server.net ≡ all_asking env link stats rs (client.files, server.files)
      → Turns env link
          (ask_all env rs)
          (all_asking env link stats rs (client.files, server.files))
          (all_answering env link stats rs (client.files, server.files))
          (serve_all rs (client.files, server.files)).0
          client
        × Turns env link
            (update env)
            (all_answering env link stats rs (client.files, server.files))
            (all_asking env link stats rs (client.files, server.files))
            (serve_all rs (client.files, server.files)).1
            server
  service_refines rs client server c d idle z can k i j = (
    ask_all_lem env link stats rs server.files [] client c can (i ∙ sym (append-nil _)),
    update-serves env link stats rs client.files server d z idle can j k,
  )
