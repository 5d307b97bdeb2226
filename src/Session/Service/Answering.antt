-- ===== src/Session/Service/Answering.antt =====
-- The session that answers, in UFT/UFTSession.hpp: Update, with the requests of a peer before it.
use uft.Prelude.{
  ℕ, zero, suc, ◌≤◌, ◌<◌, ◌≡◌, refl, sym, ap, ◌∙◌, arith, List, [], ◌∷◌, ◌++◌, append-nil,
  append_assoc, length, some, fun_ext, ok,
}
use uft.World.{World, Env}
use uft.Files.{Files}
use uft.Session.{FileInfo, transmit_file, up, down}
use uft.Session.Transmit.{handle_packet, update_loop, update}
use uft.Session.Exchange.{Talk, Talk-trans, Talk-left, heard_before}
use uft.Session.Offer.{Stats, described, offer}
use uft.Session.Opening.{offered_packet, offer_payload, offer_payload-short}
use uft.Session.Ends.{Connected, described-Fits}
use uft.Session.Meeting.{bytes_of, sender_words, receiver_words}
use uft.Session.Copy.Upload.{upload_answering}
use uft.Session.Copy.Download.{download_answering}
use uft.Session.Public.{AtRest}
use uft.Session.Reading.{left_over}
use uft.Session.Serving.{
  locked, public_lem, Connected-locked, Connected-later, Connected-onward, poll_packet_lem,
  update_loop-next, update_loop-idle,
}
use uft.Session.Service.{
  Request, upload, download, serve, serve_all, fresh_for, asking_words, answering_words, all_asking,
  all_answering, CanServe, CanServeAll,
}
use uft.Session.Service.Asking.{Turns}
use uft.Socket.Delivery.{Link, at}
use uft.Socket.Polling.{Idles}

module _ {U : Type 0} (env : Env U) (link : Link env.udt) where
  open link use {queues.{incoming, outgoing, waits}}

  -- OnUpdate goes on from `w` with the files `fs`, having said `out` and heard `come`.
  abbrev Goes : ℕ → List ℕ → List ℕ → Files → World U → Type 0
  Goes n out come fs w =
      (v : U) × (r : List (ℕ × ℕ)) × (update_loop env (suc n) w
        ≡ update_loop env n (record w { net = v; reports = r; files = fs }))
      × Talk env link out come w.net v

  -- An offer that has come, and what HandlePacket makes of it.
  take_offer :
      (n : ℕ) (info : FileInfo) (direction : ℕ) (words answers more : List ℕ) (fs : Files)
      (w : World U)
      → Connected env link w
      → waits w.net ≡ 0
      → length (offer_payload info direction) ≤ 270
      → incoming w.net ≡ (offer info direction ++ words) ++ more
      → ((u : U)
          → Connected env link (at env link w u)
          → incoming u ≡ words ++ more
          → Turns env link
              (handle_packet env transmit_file (offered_packet info direction))
              answers
              words
              fs
              (at env link w u))
      → Goes n answers (offer info direction ++ words) fs w
  take_offer n info direction words answers more fs w c z short i next =
      let fits = c.offer_fits in
      let said = i ∙ append_assoc (offer info direction) words more in
      let (u, told, got) =
        poll_packet_lem env link transmit_file (offer_payload info direction) (words ++ more) w
          c.is_up z said (omega arith) (omega arith) in
      let (v, rs, run, talk) =
        next u (Connected-later env link w u c got.2)
          (left_over env link (offer info direction) (words ++ more) w.net u got said) in
      (
        v,
        rs,
        update_loop-next env n transmit_file (offered_packet info direction) w (at env link w u)
            (record w { net = v; reports = rs; files = fs }) told run,
        heard_before env link (offer info direction) answers words w.net u v got talk,
      )

module _ {U : Type 0} (env : Env U) (link : Link env.udt) (stats : Stats env.os) where
  open link use {queues.{incoming, outgoing, waits}}

  answer_lem :
      (n : ℕ) (r : Request) (ours : Files) (more : List ℕ) (w : World U)
      → Connected env link w
      → waits w.net ≡ 0
      → CanServe env link stats r (ours, w.files)
      → incoming w.net ≡ asking_words env link stats r (ours, w.files) ++ more
      → Goes env link n
          (answering_words env link stats r (ours, w.files))
          (asking_words env link stats r (ours, w.files))
          (serve r (ours, w.files)).1
          w
  answer_lem n (upload source destination) ours more w c z (s, t, a) i =
      let content = bytes_of (ours source) in
      let fresh = fresh_for env link stats (upload source destination) (ours, w.files) in
      let o = w.files destination in
      let info = described (stats.mtime ours source) destination (some content) in
      take_offer env link n info up (sender_words env link fresh content (bytes_of o))
        (answering_words env link stats (upload source destination) (ours, w.files)) more
        (serve (upload source destination) (ours, w.files)).1 w c z
        (offer_payload-short info up (
          described-Fits (stats.mtime ours source) destination (some content) t.target_path
            s.source_small))
        i
        λ u d j.
          let (v, rs, fs, run, holds, talk) =
            upload_answering env link stats destination (stats.mtime ours source) fresh content more
              o (at env link w u) d t s.source_small s.source_enough refl a j in
          (
            v,
            rs,
            run
                ∙ ap (λ (gs : Files). ok tt (record w { net = v; reports = rs; files = gs }))
                    (fun_ext holds),
            talk,
          )
  answer_lem n (download source destination) ours more w c z (s, t, a) i =
      let content = bytes_of (w.files source) in
      let fresh = fresh_for env link stats (download source destination) (ours, w.files) in
      let o = ours destination in
      let info = described (stats.mtime ours destination) source o in
      take_offer env link n info down (receiver_words env link fresh content (bytes_of o))
        (answering_words env link stats (download source destination) (ours, w.files)) more w.files
        w c z
        (offer_payload-short info down
          (described-Fits (stats.mtime ours destination) source o s.source_path t.target_small))
        i
        λ u d j.
          download_answering env link stats source (stats.mtime ours destination) fresh content more
            o (at env link w u) d s t.target_small refl j

  answer_all_lem :
      (rs : List Request) (n : ℕ) (ours : Files) (w : World U)
      → Connected env link w
      → waits w.net ≡ 0
      → Idles env link
      → CanServeAll env link stats rs (ours, w.files)
      → incoming w.net ≡ all_asking env link stats rs (ours, w.files)
      → length rs < n
      → Turns env link
          (update_loop env n)
          (all_answering env link stats rs (ours, w.files))
          (all_asking env link stats rs (ours, w.files))
          (serve_all rs (ours, w.files)).1
          w
  answer_all_lem rs zero ours w c z idle can i k = absurd (omega arith)
  answer_all_lem [] (suc n) ours w c z idle can i k = (
    w.net,
    w.reports,
    update_loop-idle env link n w c.is_up idle i,
    (sym (append-nil (outgoing w.net)), refl, omega arith),
  )
  answer_all_lem (r ∷ rs) (suc n) ours w c z idle (can, later) i k =
      let next = serve r (ours, w.files) in
      let hears = asking_words env link stats r (ours, w.files) in
      let says = answering_words env link stats r (ours, w.files) in
      let rest = all_asking env link stats rs next in
      let (u, reports, run, talk) = answer_lem n r ours rest w c z can i in
      let (v, reports', run', talk') =
        answer_all_lem rs n next.0 (record w { net = u; reports = reports; files = next.1 })
          (Connected-onward env link w u reports next.1 c talk.2) (omega (arith, talk)) idle later
          (Talk-left env link says hears rest w.net u talk i) (omega arith) in
      (
        v,
        reports',
        run ∙ run',
        Talk-trans env link says (all_answering env link stats rs next) hears rest w.net u v talk
            talk',
      )

  -- Update of a session at rest, that nothing makes wait and whose receives say where no bytes
  -- are, where the words of a peer's list of requests have come, each of which can be met when its
  -- turn comes and which are fewer than the fuel: it ends well, having taken all words and
  -- answered every request, and its files are what serving the requests in order makes of them.
  pub update-serves :
      (rs : List Request) (ours : Files) (w : World U)
      → AtRest env link stats w
      → waits w.net ≡ 0
      → Idles env link
      → CanServeAll env link stats rs (ours, w.files)
      → incoming w.net ≡ all_asking env link stats rs (ours, w.files)
      → length rs < env.fuel
      → Turns env link
          (update env)
          (all_answering env link stats rs (ours, w.files))
          (all_asking env link stats rs (ours, w.files))
          (serve_all rs (ours, w.files)).1
          w
  unfolding update
  update-serves rs ours w c z idle can i k =
      let (v, reports, run, talk) =
        answer_all_lem rs env.fuel ours (locked env w) (Connected-locked env link w c.session) z
          idle can i k in
      (
        v,
        reports,
        public_lem env (update_loop env env.fuel) tt w v reports (serve_all rs (ours, w.files)).1
            c.session.is_up.is_connected c.unlocked run,
        talk,
      )
