-- ===== src/Session/Service/Asking.antt =====
-- The session that asks, in UFT/UFTSession.hpp: calls of SendFile and ReceiveFile, one after another.
use uft.Prelude.{
  ℕ, ◌≤◌, ◌≡◌, refl, sym, ap, ◌∙◌, arith, true, List, [], ◌∷◌, ◌++◌, append-nil, append_assoc,
  fun_ext, ok, Program,
}
use uft.World.{World, Env}
use uft.Files.{Files}
use uft.Session.Exchange.{Talk, Talk-trans, Talk-left}
use uft.Session.Meeting.{bytes_of}
use uft.Session.Offer.{Stats}
use uft.Session.Public.{AtRest, send_file-copies, receive_file-copies}
use uft.Session.Serving.{Connected-onward}
use uft.Session.Service.{
  Request, upload, download, serve, serve_all, ask, ask_all, fresh_for, asking_words,
  answering_words, all_asking, all_answering, CanServe, CanServeAll,
}
use uft.Socket.Delivery.{Link}

module _ {U : Type 0} (env : Env U) (link : Link env.udt) where
  open link use {queues.{incoming, outgoing, waits}}

  -- The program ends well, having said `out`, heard `come` and left the files `fs`.
  abbrev pub Turns : Program (World U) (Unit {0}) → List ℕ → List ℕ → Files → World U → Type 0
  Turns m out come fs w =
      (v : U) × (r : List (ℕ × ℕ)) × (m w ≡ ok tt (record w { net = v; reports = r; files = fs }))
      × Talk env link out come w.net v

module _ {U : Type 0} (env : Env U) (link : Link env.udt) (stats : Stats env.os) where
  open link use {queues.{incoming, outgoing, waits}}

  AtRest-later :
      (w : World U) (v : U) (r : List (ℕ × ℕ)) (fs : Files)
      → AtRest env link stats w
      → waits v ≤ waits w.net
      → AtRest env link stats (record w { net = v; reports = r; files = fs })
  AtRest-later w v r fs c n = record {
    session = Connected-onward env link w v r fs c.session n;
    unlocked = c.unlocked;
  }

  ask_lem :
      (r : Request) (theirs : Files) (more : List ℕ) (w : World U)
      → AtRest env link stats w
      → CanServe env link stats r (w.files, theirs)
      → incoming w.net ≡ answering_words env link stats r (w.files, theirs) ++ more
      → Turns env link
          (ask env r)
          (asking_words env link stats r (w.files, theirs))
          (answering_words env link stats r (w.files, theirs))
          (serve r (w.files, theirs)).0
          w
  ask_lem (upload source destination) theirs more w c (s, t, a) i =
      send_file-copies env link stats source destination (stats.mtime theirs destination)
        (fresh_for env link stats (upload source destination) (w.files, theirs)) true
        (bytes_of (w.files source)) more (theirs destination) w c s t.target_path t.target_small
        refl i
  ask_lem (download source destination) theirs more w c (s, t, a) i =
      let (v, rs, fs, run, holds, talk) =
        receive_file-copies env link stats source destination (stats.mtime theirs source)
          (fresh_for env link stats (download source destination) (w.files, theirs)) true
          (bytes_of (theirs source)) more (w.files destination) w c t s.source_path s.source_small
          s.source_enough refl a i in
      (
        v,
        rs,
        run
            ∙ ap (λ (gs : Files). ok tt (record w { net = v; reports = rs; files = gs }))
                (fun_ext holds),
        talk,
      )

  pub ask_all_lem :
      (rs : List Request) (theirs : Files) (more : List ℕ) (w : World U)
      → AtRest env link stats w
      → CanServeAll env link stats rs (w.files, theirs)
      → incoming w.net ≡ all_answering env link stats rs (w.files, theirs) ++ more
      → Turns env link
          (ask_all env rs)
          (all_asking env link stats rs (w.files, theirs))
          (all_answering env link stats rs (w.files, theirs))
          (serve_all rs (w.files, theirs)).0
          w
  ask_all_lem [] theirs more w c can i =
      (w.net, w.reports, refl, (sym (append-nil (outgoing w.net)), refl, omega arith))
  ask_all_lem (r ∷ rs) theirs more w c (can, later) i =
      let next = serve r (w.files, theirs) in
      let says = asking_words env link stats r (w.files, theirs) in
      let hears = answering_words env link stats r (w.files, theirs) in
      let rest = all_answering env link stats rs next in
      let i' = i ∙ append_assoc hears rest more in
      let (u, reports, run, talk) = ask_lem r theirs (rest ++ more) w c can i' in
      let (v, reports', run', talk') =
        ask_all_lem rs next.1 more (record w { net = u; reports = reports; files = next.0 })
          (AtRest-later w u reports next.0 c talk.2) later
          (Talk-left env link says hears (rest ++ more) w.net u talk i') in
      (
        v,
        reports',
        ground arith,
        Talk-trans env link says (all_asking env link stats rs next) hears rest w.net u v talk
            talk',
      )
