-- ===== src/Session/Conduct/Loops.antt =====
-- UFT/UFTSession.hpp: the loops over the chunks of a file, under a Conduct whose number is at most the
-- fuel.
use uft.Prelude.{
  arith, Program, ◌>>=◌, ℕ, zero, suc, ◌≤◌, ◌==◌, ◌&&◌, ◌||◌, ltb, Bool, length, replicate, List,
}
use uft.Prelude.Keeps.{Leads-stuck, Leads-bind, Leads-pure, Leads-test, Leads-state}
use uft.World.{World, Env}
use uft.Files.{Mode, Stream, read, seek}
use uft.Session.{FileInfo, c_string, add64}
use uft.Session.Chunk.{Callback, unchecked, checked, overwrite}
use uft.Session.Sender.{
  differs, send_whole, send_rest, send_if_differs, send_compared, send_file_chunks,
}
use uft.Session.Receiver.{
  Progress, receive_chunks, receive_if_differs, receive_compared, receive_file_chunks,
}
use uft.Session.Conduct.{Conduct, less_one, Goes, Ebbs, Goes-of, Ebbs-then}
use uft.Session.Conduct.Packets.{break_off-Leads}
use uft.Session.Conduct.Chunks.{
  open_file-Leads, report-Leads, send_file_chunk-Ebbs, send_file_chunk_hash-Goes,
  receive_file_chunk_hash-Ebbs, receive_file_chunk-Ebbs,
}

pub less_one-le : (k n : ℕ) → k ≤ suc n → less_one k ≤ n
less_one-le zero n l = omega arith
less_one-le (suc k) n l = omega arith

pub less_one-small : (k n : ℕ) → k ≤ n → less_one k ≤ n
less_one-small zero n l = l
less_one-small (suc k) n l = omega arith

module _ {U : Type 0} {env : Env U} (conduct : Conduct env) where
  open conduct use {Holds, Stuck}

  pub never : (k : ℕ) → k ≤ 0 → (w : World U) → Holds k w → Stuck
  never zero l w h = conduct.none_left w h
  never (suc k) l w h = absurd (omega arith)

  Goes-then :
      {A B : Type 0} (k : ℕ) (m : Program (World U) A) (f : A → Program (World U) B)
      → Ebbs conduct k m
      → ((a : A) → Goes conduct (less_one k) (f a))
      → Goes conduct k (m >>= f)
  Goes-then k m f e g = Goes-of conduct k (m >>= f) (Ebbs-then conduct k m f e g)

  send_whole-Goes :
      (fuel k : ℕ)
      → k ≤ fuel
      → (reporting : Bool) (total : ℕ) (s : Stream) (offset : ℕ)
      → Goes conduct k (send_whole env fuel reporting total s offset)
  unfolding send_whole
  send_whole-Goes zero k l reporting total s offset =
      Leads-test (ltb offset total) _ _ (Leads-stuck (never k l)) (Leads-pure tt)
  send_whole-Goes (suc fuel) k l reporting total s offset =
      Leads-test (ltb offset total) _ _
        (Leads-state (λ w. read env.chunk_size w.files (seek offset s)) _
          λ a. Goes-then k _ _ (send_file_chunk-Ebbs conduct k a.0 offset (length a.0)) λ u.
            report-Leads conduct (less_one k) reporting (add64 offset (length a.0)) total _ (
              send_whole-Goes fuel (less_one k) (less_one-le k fuel l) reporting total a.1
                (add64 offset (length a.0))))
        (Leads-pure tt)

  send_rest-Goes :
      (fuel k : ℕ)
      → k ≤ fuel
      → (reporting : Bool) (total : ℕ) (s : Stream) (offset : ℕ)
      → Goes conduct k (send_rest env fuel reporting total s offset)
  unfolding send_rest
  send_rest-Goes zero k l reporting total s offset =
      Leads-test (ltb offset total) _ _ (Leads-stuck (never k l)) (Leads-pure tt)
  send_rest-Goes (suc fuel) k l reporting total s offset =
      Leads-test (ltb offset total) _ _
        (Leads-state (λ w. read env.chunk_size w.files s) _
          λ a. Goes-then k _ _ (send_file_chunk-Ebbs conduct k a.0 offset (length a.0)) λ u.
            report-Leads conduct (less_one k) reporting (add64 offset (length a.0)) total _ (
              send_rest-Goes fuel (less_one k) (less_one-le k fuel l) reporting total a.1
                (add64 offset (length a.0))))
        (Leads-pure tt)

  send_if_differs-Goes :
      (k : ℕ) (bytes : List ℕ) (offset hash remote_hash remote_count remote_size : ℕ)
      → Goes conduct k (send_if_differs env bytes offset hash remote_hash remote_count remote_size)
  unfolding send_if_differs
  send_if_differs-Goes k bytes offset hash remote_hash remote_count remote_size =
      Leads-test (differs (length bytes) remote_count hash remote_hash) _ _
        (Goes-then k _ _ (send_file_chunk-Ebbs conduct k bytes offset (length bytes))
          λ u. Leads-pure _)
        (Leads-pure remote_size)

  send_compared-Goes :
      (fuel k : ℕ)
      → k ≤ fuel
      → (reporting : Bool) (total : ℕ) (s : Stream) (offset remote_size : ℕ)
      → Goes conduct k (send_compared env fuel reporting total s offset remote_size)
  unfolding send_compared
  send_compared-Goes zero k l reporting total s offset remote_size =
      Leads-test (ltb offset remote_size) _ _ (Leads-stuck (never k l)) (Leads-pure (s, offset))
  send_compared-Goes (suc fuel) k l reporting total s offset remote_size =
      Leads-test (ltb offset remote_size) _ _
        (Leads-state (λ w. read env.chunk_size w.files s) _
          λ a. Leads-bind _ _ (send_file_chunk_hash-Goes conduct k a.0 offset (length a.0)) λ hash.
            Goes-then k _ _ (receive_file_chunk_hash-Ebbs conduct k) λ b.
              Leads-test (offset == b.1) _ _
                (Leads-bind _ _
                  (send_if_differs-Goes (less_one k) a.0 offset hash b.0 b.2 remote_size)
                  λ size.
                    report-Leads conduct (less_one k) reporting (add64 offset (length a.0)) total _
                      (send_compared-Goes fuel (less_one k) (less_one-le k fuel l) reporting total
                        a.1 (add64 offset (length a.0)) size))
                (break_off-Leads conduct (less_one k) (less_one k)))
        (Leads-pure (s, offset))

  pub send_file_chunks-Goes :
      (k : ℕ)
      → k ≤ env.fuel
      → (local remote : FileInfo) (reporting : Bool)
      → Goes conduct k (send_file_chunks env local remote reporting)
  unfolding send_file_chunks
  send_file_chunks-Goes k l local remote reporting =
      Leads-test ((remote.size == 0 && remote.timestamp == 0) || ltb local.size remote.size) _ _
        (open_file-Leads conduct k (c_string local.path) Mode.reading _
          λ s. send_whole-Goes env.fuel k l reporting local.size s 0)
        (open_file-Leads conduct k (c_string local.path) Mode.reading _ λ s.
          Leads-bind _ _ (send_compared-Goes env.fuel k l reporting local.size s 0 remote.size)
            λ a. send_rest-Goes env.fuel k l reporting local.size a.0 a.1)

  receive_chunks-Goes :
      (fuel k : ℕ)
      → k ≤ fuel
      → (callback : Callback) (reporting : Bool) (total : ℕ) (buffer : List ℕ) (s : Stream)
        (offset : ℕ)
      → Goes conduct k (receive_chunks env fuel callback reporting total buffer s offset)
  unfolding receive_chunks
  receive_chunks-Goes zero k l callback reporting total buffer s offset =
      Leads-test (ltb offset total) _ _ (Leads-stuck (never k l)) (Leads-pure tt)
  receive_chunks-Goes (suc fuel) k l callback reporting total buffer s offset =
      Leads-test (ltb offset total) _ _
        (Goes-then k _ _ (receive_file_chunk-Ebbs conduct k callback buffer s) λ chunk.
          report-Leads conduct (less_one k) reporting (add64 offset chunk.size) total _ (
            receive_chunks-Goes fuel (less_one k) (less_one-le k fuel l) callback reporting total
              chunk.buffer chunk.stream (add64 offset chunk.size)))
        (Leads-pure tt)

  receive_if_differs-Goes :
      (k : ℕ) (p : Progress env) (local_count hash remote_hash remote_count : ℕ)
      → Goes conduct k (receive_if_differs env p local_count hash remote_hash remote_count)
  unfolding receive_if_differs
  receive_if_differs-Goes k p local_count hash remote_hash remote_count =
      Leads-test (differs local_count remote_count hash remote_hash) _ _
        (Goes-then k _ _ (receive_file_chunk-Ebbs conduct k checked p.buffer p.stream)
          λ chunk. Leads-pure _)
        (Leads-pure _)

  receive_compared-Goes :
      (fuel k : ℕ)
      → k ≤ fuel
      → (reporting : Bool) (total : ℕ) (p : Progress env)
      → Goes conduct k (receive_compared env fuel reporting total p)
  unfolding receive_compared
  receive_compared-Goes zero k l reporting total p =
      Leads-test (ltb p.offset p.local_size) _ _ (Leads-stuck (never k l)) (Leads-pure p)
  receive_compared-Goes (suc fuel) k l reporting total p =
      Leads-test (ltb p.offset p.local_size) _ _
        (Leads-state (λ w. read env.chunk_size w.files (seek p.offset p.stream)) _
          λ a.
            let buffer = overwrite a.0 p.buffer in
            Goes-then k _ _ (receive_file_chunk_hash-Ebbs conduct k) λ b.
              Leads-bind _ _
                (send_file_chunk_hash-Goes conduct (less_one k) buffer p.offset (length a.0))
                λ hash.
                  Leads-test (p.offset == b.1) _ _
                    (Leads-bind _ _
                      (receive_if_differs-Goes (less_one k)
                        (record p { buffer = buffer; stream = a.1 }) (length a.0) hash b.0 b.2)
                      λ p'. report-Leads conduct (less_one k) reporting p'.offset total _ (
                        receive_compared-Goes fuel (less_one k) (less_one-le k fuel l) reporting
                          total p'))
                    (break_off-Leads conduct (less_one k) (less_one k)))
        (Leads-pure p)

  pub receive_file_chunks-Goes :
      (k : ℕ)
      → k ≤ env.fuel
      → (local remote : FileInfo) (reporting : Bool)
      → Goes conduct k (receive_file_chunks env local remote reporting)
  unfolding receive_file_chunks
  receive_file_chunks-Goes k l local remote reporting =
      Leads-test ((local.size == 0 && local.timestamp == 0) || ltb remote.size local.size) _ _
        (open_file-Leads conduct k (c_string local.path) Mode.truncating _ λ s.
          receive_chunks-Goes env.fuel k l unchecked reporting remote.size
            (replicate env.chunk_size 0) s 0)
        (open_file-Leads conduct k (c_string local.path) Mode.updating _ λ s.
          Leads-bind _ _ (receive_compared-Goes env.fuel k l reporting remote.size _) λ p.
            receive_chunks-Goes env.fuel k l checked reporting remote.size p.buffer p.stream
              p.offset)
