-- ===== src/Session/SendFile.antt =====
-- SendFileChunks of UFT/UFTSession.hpp as a whole, in both of its branches.
use uft.Prelude.{
  ℕ, ◌-◌, ◌^◌, ◌≤◌, ◌<◌, ◌≡◌, inl, refl, sym, ◌∙◌, arith, Bool, true, false, List, [], ◌++◌,
  append_assoc, length, some,
}
use uft.World.{World, Env}
use uft.Files.{Mode, at_start, content_of}
use uft.Session.{FileInfo, c_string}
use uft.Session.Sender.{send_file_chunks}
use uft.Session.Exchange.{Healthy, Enough, Talk-trans, Talk-left}
use uft.Session.Plan.{afresh, whole_out, whole_in, compared_out, compared_in, beyond}
use uft.Socket.Delivery.{Link, IsUp}
use uft.Session.Sending.{Reads, Runs, send_rest_lem, send_whole_lem}
use uft.Session.SendCompared.{send_compared_lem}

module _ {U : Type 0} (env : Env U) (link : Link env.udt) where
  open link use {queues.{incoming, outgoing, waits}}

  -- The file that the session is asked for: it opens, and has the size that its FileInfo says.
  pub record Offered (w : World U) (local : FileInfo) (content : List ℕ) : Type 0 where
    pub there : w.files (c_string local.path) ≡ some content
    pub opens : env.os.may_open w.files (c_string local.path) Mode.reading ≡ true
    pub size_eq : local.size ≡ length content
    pub enough : length content ≤ env.fuel
    pub small : length content < 2 ^ 63

  from_start :
      (w : World U) (local : FileInfo) (content : List ℕ)
      → Offered w local content
      → Reads w.files (at_start (c_string local.path)) [] content
  from_start w local content f = record {
    content_eq = rw (content_of, f.there) refl;
    pos_eq = refl;
    good_or_end = inl refl;
    small = omega (arith, f.small);
  }

  -- SendFileChunks of a file `content` that opens and has the size its FileInfo says, to a peer
  -- without a file or with a longer one, over a link that stays up, with zlib and a disk as
  -- Healthy says, lengths below 2 ^ 63 and within the fuel, where an acknowledgement comes in for
  -- each chunk: it ends well, takes exactly those, and has said every chunk in order.
  pub send_file_chunks-whole :
      (local remote : FileInfo) (reporting : Bool) (content more : List ℕ) (w : World U)
      → IsUp env link w.sock
      → Healthy env
      → Offered w local content
      → afresh remote.size remote.timestamp local.size ≡ true
      → incoming w.net ≡ whole_in env env.fuel content ++ more
      → Enough env link w.net
      → Runs env link
          (send_file_chunks env local remote reporting)
          tt
          (whole_out env env.fuel 0 content)
          (whole_in env env.fuel content)
          w
  unfolding send_file_chunks
  send_file_chunks-whole local remote reporting content more w up good f e i k =
      let (v, rs, run, talk) =
        send_whole_lem env link env.fuel reporting local.size 0 (at_start (c_string local.path)) []
          content more w up good (from_start w local content f) refl (omega (arith, f.size_eq))
          (f.enough) i k in
      let there = f.there in let opens = f.opens in (v, rs, ground arith, talk)

  -- SendFileChunks of a file `content` that opens and has the size its FileInfo says, to a peer
  -- whose file `old` is not longer and not empty with timestamp 0, over a link that stays up, with
  -- zlib and a disk as Healthy says, lengths below 2 ^ 63 and within the fuel, where the plan's
  -- answers of a receiver with `old` come in: it ends well and takes exactly those answers, having
  -- said a hash for each chunk of `old`, the chunk where the peer's is stale, and every chunk that
  -- lies beyond.
  pub send_file_chunks-compared :
      (local remote : FileInfo) (reporting : Bool) (content old more : List ℕ) (w : World U)
      → IsUp env link w.sock
      → Healthy env
      → Offered w local content
      → afresh remote.size remote.timestamp local.size ≡ false
      → remote.size ≡ length old
      → length old ≤ length content
      → incoming w.net
        ≡ (compared_in env env.fuel 0 content old
            ++ whole_in env env.fuel (beyond env env.fuel content old))
          ++ more
      → Enough env link w.net
      → Runs env link
          (send_file_chunks env local remote reporting)
          tt
          (compared_out env env.fuel 0 content old
            ++ whole_out env env.fuel
                (length content - length (beyond env env.fuel content old))
                (beyond env env.fuel content old))
          (compared_in env env.fuel 0 content old
            ++ whole_in env env.fuel (beyond env env.fuel content old))
          w
  unfolding send_file_chunks
  send_file_chunks-compared local remote reporting content old more w up good f e m l i k =
      let last = beyond env env.fuel content old in
      let come = compared_in env env.fuel 0 content old in
      let come' = whole_in env env.fuel last in
      let out = compared_out env env.fuel 0 content old in
      let there = f.there in
      let opens = f.opens in
      let enough = f.enough in
      let size_eq = f.size_eq in
      let i' = i ∙ append_assoc come come' more in
      let c =
        send_compared_lem env link env.fuel reporting local.size 0 remote.size
          (at_start (c_string local.path)) [] content old (come' ++ more) w up good
          (from_start w local content f) refl (omega arith) l (omega arith) i' k in
      let size = c.size in
      let run₁ = c.run in
      let talk₁ = c.talk in
      let offset = length content - length last in
      let at_offset : length c.read_so_far ≡ offset = omega arith in
      let (v, rs, run, talk) =
        send_rest_lem env link env.fuel reporting local.size offset c.stream c.read_so_far last more
          (record w { net = c.net; reports = c.reports }) up good c.reads (sym at_offset)
          (omega arith) (omega arith)
          (Talk-left env link out come (come' ++ more) w.net c.net talk₁ i')
          (omega (arith, talk₁)) in
      (
        v,
        rs,
        ground arith,
        Talk-trans env link out (whole_out env env.fuel offset last) come come' w.net c.net v talk₁
            talk,
      )
