-- ===== src/Examples/Copies.antt =====
-- The examples of whole transfers: the library of Examples with a receive that says where nothing
-- has come, a disk whose stat64 tells the truth, and two requests.
use uft.Prelude.{
  ℕ, ◌<◌, ◌≡◌, ◌≢◌, refl, arith, true, false, List, [], ◌∷◌, length, take, drop, take-append-drop,
  length-take, none, some, sym, append-nil, if◌then◌else◌, bytes_eq,
}
use uft.World.{Udt, Env, World, received, recv_again}
use uft.Files.{Files, Entry, absent, found}
use uft.Session.{up, down}
use uft.Session.Chunk.{calculate_file_chunk_hash, fnv}
use uft.Session.Exchange.{Healthy}
use uft.Session.Meeting.{tells}
use uft.Session.Offer.{Stats}
use uft.Session.Plan.{tells_apart}
use uft.Session.Copy.{source_words, target_words}
use uft.Session.Public.{AtRest, send_file-copies, receive_file-copies}
use uft.Session.Receiving.{Fills}
use uft.Session.Sending.{Runs}
use uft.Session.Service.{
  Request, upload, download, serve_all, ask_all, all_asking, all_answering, CanServe, CanServeAll,
}
use uft.Session.Service.Asking.{Turns}
use uft.Session.Service.Answering.{update-serves}
use uft.Session.Service.Refinement.{service_refines}
use uft.Session.Transmit.{send_file, receive_file, update}
use uft.Socket.Delivery.{Link, Gives}
use uft.Socket.Polling.{Idles}
use uft.Examples.{Net, net_udt, queues, Takes-all, session}
use uft.Examples.Transfers.{content, old}

abbrev asking_udt : Udt Net
asking_udt = record net_udt {
  recv = λ h n u. elim u.incoming [
    | [] ↦ (recv_again, u)
    | x ∷ xs ↦ (received (take n (x ∷ xs)), record u { incoming = drop n (x ∷ xs) })
  ];
}

-- "d" has a directory "x", a file "a", and an entry "z" that has gone.
abbrev entries : List Entry
entries =
    record { is_dir = true; name = 120 ∷ [] }
    ∷ record { is_dir = false; name = 97 ∷ [] }
    ∷ record { is_dir = false; name = 122 ∷ [] }
    ∷ []

abbrev pub env : Env Net
env = record {
  udt = asking_udt;
  os = record {
    stat = λ fs p. elim (fs p) [ none ↦ absent | some c ↦ found (length c) 5 ];
    read_dir = λ fs p. if bytes_eq p (100 ∷ []) then some entries else none;
    may_open = λ fs p m. true;
    may_write = λ fs p n xs. true;
  };
  zlib = record { deflate = λ xs n. xs; inflate = λ xs n. xs };
  chunk_size = 4;
  fuel = 300;
}

pub Gives-first :
    (n : ℕ) (xs : List ℕ) (u : Net)
    → u.incoming ≡ xs
    → 0 < n
    → xs ≢ []
    → Gives queues n u (asking_udt.recv 7 n (record u { incoming = xs }))
Gives-first n [] u e k h = absurd (h refl)
Gives-first n (x ∷ xs) u e k h = (
  omega (arith, length-take n (x ∷ xs)),
  omega (arith, length-take n (x ∷ xs)),
  cc (take-append-drop n (x ∷ xs)),
  refl,
  omega arith,
)

abbrev pub link : Link env.udt
link = record {
  queues = queues;
  handle = 7;
  takes = Takes-all;
  gives = λ n u k s h. Gives-first n u.incoming u refl k h;
}

abbrev pub stats : Stats env.os
stats = record { mtime = λ fs p. 5; tells = λ fs p. refl }

pub idle : Idles env link
idle = record { asks_again = λ n u e. ground arith }

pub env-Healthy : Healthy env
env-Healthy = record {
  fits = λ xs h. omega arith;
  lossless = λ xs h. refl;
  chunk_pos = omega arith;
  chunk_small = omega arith;
  disk = λ fs p n xs. refl;
}

pub session-AtRest : (words : List ℕ) (fs : Files) → AtRest env link stats (session words fs)
session-AtRest words fs = record {
  session = record {
    is_up = record { is_open = refl; is_connected = refl; handle_eq = refl };
    healthy = env-Healthy;
    enough = omega arith;
    offer_fits = omega arith;
  };
  unlocked = refl;
}

-- The client has "a", the server "b".
abbrev pub ours : Files
ours p = if bytes_eq p (97 ∷ []) then some content else none

abbrev pub theirs : Files
theirs p = if bytes_eq p (98 ∷ []) then some old else none

-- "a" to "b", and "b" back to "c".
abbrev pub requests : List Request
requests = upload (97 ∷ []) (98 ∷ []) ∷ download (98 ∷ []) (99 ∷ []) ∷ []

pub apart : tells env link false content old ≡ true
unfolding tells_apart calculate_file_chunk_hash fnv
apart = refl

pub first : CanServe env link stats (upload (97 ∷ []) (98 ∷ [])) (ours, theirs)
first = (
  record {
    source_path = refl;
    source_there = refl;
    source_opens = refl;
    source_small = omega arith;
    source_enough = omega arith;
  },
  record {
    target_path = refl;
    target_there = refl;
    target_opens = refl;
    target_small = omega arith;
  },
  apart,
)

pub can : CanServeAll env link stats requests (ours, theirs)
can = (
  first,
  (
    (
      record {
        source_path = refl;
        source_there = refl;
        source_opens = refl;
        source_small = omega arith;
        source_enough = omega arith;
      },
      record {
        target_path = refl;
        target_there = refl;
        target_opens = refl;
        target_small = omega arith;
      },
      refl,
    ),
    tt,
  ),
)

abbrev client : World Net
client = session (all_answering env link stats requests (ours, theirs)) ours

abbrev pub server : World Net
server = session (all_asking env link stats requests (ours, theirs)) theirs

service_refines_example :
    Turns env link
      (ask_all env requests)
      (all_asking env link stats requests (ours, theirs))
      (all_answering env link stats requests (ours, theirs))
      (serve_all requests (ours, theirs)).0
      client
    × Turns env link
        (update env)
        (all_answering env link stats requests (ours, theirs))
        (all_asking env link stats requests (ours, theirs))
        (serve_all requests (ours, theirs)).1
        server
service_refines_example =
    service_refines env link stats requests client server
      (session-AtRest (all_answering env link stats requests (ours, theirs)) ours)
      (session-AtRest (all_asking env link stats requests (ours, theirs)) theirs) idle refl can
      (omega arith) refl refl

update-serves_example :
    Turns env link
      (update env)
      (all_answering env link stats requests (ours, theirs))
      (all_asking env link stats requests (ours, theirs))
      (serve_all requests (ours, theirs)).1
      server
update-serves_example =
    update-serves env link stats requests ours server
      (session-AtRest (all_asking env link stats requests (ours, theirs)) theirs) refl idle can refl
      (omega arith)

abbrev said : List ℕ
said = source_words env link stats 5 (98 ∷ []) up false content (some old)

abbrev heard : List ℕ
heard = target_words env link stats 5 (98 ∷ []) up false content (some old)

send_file-copies_example :
    Runs env link (send_file env (97 ∷ []) (98 ∷ []) true) tt said heard (session heard ours)
send_file-copies_example =
    send_file-copies env link stats (97 ∷ []) (98 ∷ []) 5 false true content [] (some old)
      (session heard ours) (session-AtRest heard ours) first.0 refl (omega arith) refl
      (sym (append-nil heard))

abbrev pub told : List ℕ
told = source_words env link stats 5 (97 ∷ []) down false content (some old)

abbrev asked : List ℕ
asked = target_words env link stats 5 (97 ∷ []) down false content (some old)

receive_file-copies_example :
    Fills env link
      (receive_file env (97 ∷ []) (98 ∷ []) false)
      tt
      (98 ∷ [])
      content
      asked
      told
      (session told theirs)
receive_file-copies_example =
    receive_file-copies env link stats (97 ∷ []) (98 ∷ []) 5 false false content [] (some old)
      (session told theirs) (session-AtRest told theirs) first.1 refl (omega arith) (omega arith)
      refl apart (sym (append-nil told))
