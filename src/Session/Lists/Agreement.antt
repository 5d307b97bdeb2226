-- ===== src/Session/Lists/Agreement.antt =====
-- GetFileList of UFT/UFTSession.hpp on one session, and Update on its peer.
use uft.Prelude.{
  ℕ, suc, ◌-◌, ◌<◌, ◌≡◌, sym, ap, ◌∙◌, arith, true, false, subst, List, [], ◌∷◌, ◌++◌, append-nil,
  length, length-append, Option, ok,
}
use uft.World.{World, Env}
use uft.Files.{FilePath}
use uft.ByteBuffer.Laws.{unread}
use uft.Session.{FileInfo, get_file_list}
use uft.Session.Info.{get_files_in_path}
use uft.Session.Transmit.{get_files, update_loop, update}
use uft.Session.Wire.{flat}
use uft.Session.Reading.{left_over}
use uft.Session.Exchange.{Talk, heard_before}
use uft.Session.Offer.{is_path, Stats}
use uft.Session.Lists.{ListFits, list_request, list_message}
use uft.Session.Lists.Directory.{get_files_in_path-ListFits}
use uft.Session.Lists.Exchange.{
  outcome_of, list_result, ListRoom, ask_for_list, public_list, answer_list,
}
use uft.Session.Public.{AtRest}
use uft.Session.Serving.{
  locked, public_lem, Connected-locked, Connected-later, poll_packet_lem, update_loop-next,
  update_loop-idle,
}
use uft.Session.Service.Asking.{Turns}
use uft.Socket.Delivery.{Link, at}
use uft.Socket.Polling.{Idles}

module _ {U : Type 0} (env : Env U) (link : Link env.udt) (stats : Stats env.os) where
  open link use {queues.{incoming, outgoing, waits}}

  -- The list that GetFilesInPath makes of a directory of this session.
  abbrev pub listed_by : World U → FilePath → Option (List FileInfo)
  listed_by w path = get_files_in_path env.os w.files path false

  pub get_files_lem :
      (path : FilePath) (infos : Option (List FileInfo)) (more : List ℕ) (w : World U)
      → AtRest env link stats w
      → is_path path ≡ true
      → ListFits infos
      → ListRoom env link infos w.net
      → incoming w.net ≡ list_message infos ++ more
      → (v : U) × (get_files env path w ≡ outcome_of (list_result env link infos) (at env link w v))
        × Talk env link (list_request path) (list_message infos) w.net v
  get_files_lem path infos more w c p f (small, room) i =
      let fits = c.session.offer_fits in
      let (v, run, talk) =
        ask_for_list env link path infos more (locked env w) p f (omega arith)
          (Connected-locked env link w c.session).is_up fits room i in
      (v, public_list env link path infos w v c.session.is_up.is_connected c.unlocked run, talk)

  update-lists :
      (path : FilePath) (w : World U)
      → AtRest env link stats w
      → is_path path ≡ true
      → ListRoom env link (listed_by w path) w.net
      → Idles env link
      → waits w.net ≡ 0
      → incoming w.net ≡ list_request path
      → Turns env link (update env) (list_message (listed_by w path)) (list_request path) w.files w
  unfolding update
  update-lists path w c p (small, room) idle z i =
      let fits = c.session.offer_fits in
      let l = locked env w in
      let d = Connected-locked env link w c.session in
      let asked = flat ((length path ∷ []) ∷ path ∷ []) in
      let short : length path < 256 = ground arith in
      let size = length-append path [] in
      let (u, told, got) =
        poll_packet_lem env link get_file_list asked [] l d.is_up z
          (i ∙ sym (append-nil (list_request path))) (omega arith) (omega arith) in
      let f = get_files_in_path-ListFits env.os w.files path in
      let d' = Connected-later env link l u d got.2 in
      let (v, run, talk) =
        answer_list env link path (at env link l u) p f d'.is_up (small, omega (arith, got)) in
      let left : incoming v ≡ [] =
        sym talk.1
        ∙ left_over env link (list_request path) [] w.net u got
            (i ∙ sym (append-nil (list_request path))) in
      let fuel : env.fuel ≡ suc (suc (env.fuel - 2)) = omega arith in
      let loop : update_loop env env.fuel l ≡ ok tt (at env link l v) =
        ap (λ (n : ℕ). update_loop env n l) fuel
        ∙ update_loop-next env (suc (env.fuel - 2)) get_file_list (unread [] asked (length asked)) l
            (at env link l u) (at env link l v) told run
        ∙ update_loop-idle env link (env.fuel - 2) (at env link l v) d'.is_up idle left in
      (
        v,
        w.reports,
        public_lem env (update_loop env env.fuel) tt w v w.reports w.files
            c.session.is_up.is_connected c.unlocked loop,
        subst (λ (come : List ℕ). Talk env link (list_message (listed_by w path)) come w.net v)
            (append-nil (list_request path))
            (heard_before env link (list_request path) (list_message (listed_by w path)) [] w.net u
              v got talk),
      )

  -- GetFileList of a session at rest against Update of another, that nothing makes wait and whose
  -- receives say where no bytes are, for a path that fits a String8, where the packet of the list
  -- is below 2 ^ 31 bytes and within the fuel of both, and each hears what the other says: the
  -- first answers with exactly the list that GetFilesInPath makes on the second, or with
  -- REMOTE_ERROR where the directory does not open, and changes nothing else; Update ends well
  -- with its files as before, and each has said what the other takes.
  pub lists_agree :
      (path : FilePath) (client server : World U)
      → AtRest env link stats client
      → AtRest env link stats server
      → is_path path ≡ true
      → ListRoom env link (listed_by server path) client.net
      → ListRoom env link (listed_by server path) server.net
      → Idles env link
      → waits server.net ≡ 0
      → incoming client.net ≡ list_message (listed_by server path)
      → incoming server.net ≡ list_request path
      → ((v : U) × (get_files env path client
            ≡ outcome_of (list_result env link (listed_by server path)) (at env link client v))
          × Talk env link (list_request path) (list_message (listed_by server path)) client.net v)
        × Turns env link
            (update env)
            (list_message (listed_by server path))
            (list_request path)
            server.files
            server
  lists_agree path client server c d p room room' idle z i j = (
    get_files_lem path (listed_by server path) [] client c p
        (get_files_in_path-ListFits env.os server.files path) room
        (i ∙ sym (append-nil (list_message (listed_by server path)))),
    update-lists path server d p room' idle z j,
  )
