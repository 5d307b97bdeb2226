-- ===== src/Examples.antt =====
-- A concrete library, disk and connection for the examples: UDT as two queues of bytes that never
-- make anybody wait, zlib as the identity, chunks of four bytes, and a disk of two files.
mod Transfers
mod Sockets
mod Peers
mod Copies
mod Lists
mod Programs
mod Managed
mod Servers
mod Calls
use uft.Prelude.{
  ◌^◌, ℕ, zero, suc, ◌+◌, ◌-◌, ◌≤◌, ◌<◌, ◌≡◌, ◌≢◌, refl, sym, ap, arith, Bool, true, false, List,
  [], ◌∷◌, ◌++◌, length, take, drop, Option, none, some, if◌then◌else◌, bytes_eq, take_all,
  take-append-drop, length-take, ltb,
}
use uft.World.{Udt, Env, Zlib, World, Context, Sent, sent, Received, received}
use uft.Files.{Files, Os, Stat, stat_error, Mode}
use uft.Socket.{new_context}
use uft.Socket.Delivery.{Queues, Link, Takes, Gives, IsUp}
use uft.Session.Exchange.{Healthy}

-- What has come and what has gone, and the number of sockets that were made.
pub record Net : Type 0 where
  pub incoming : List ℕ
  pub outgoing : List ℕ
  pub made : ℕ

abbrev pub net_udt : Udt Net
net_udt = record {
  startup = λ u. u;
  cleanup = λ u. u;
  socket = λ u. (u.made, record u { made = suc u.made });
  close = λ h u. u;
  setsockopt = λ h o v u. (true, u);
  bind = λ h a u. (true, u);
  listen = λ h n u. (true, u);
  accept = λ h u. (u.made, record u { made = suc u.made });
  getpeername = λ h u. (some (record { host = 1; port = 2 }), u);
  connect = λ h a u. (true, u);
  send = λ h xs n u. (sent (length xs), record u { outgoing = u.outgoing ++ xs });
  recv = λ h n u. (received (take n u.incoming), record u { incoming = drop n u.incoming });
}

abbrev pub env : Env Net
env = record {
  udt = net_udt;
  os = record {
    stat = λ fs p. stat_error;
    read_dir = λ fs p. none;
    may_open = λ fs p m. true;
    may_write = λ fs p n xs. true;
  };
  zlib = record { deflate = λ xs n. xs; inflate = λ xs n. xs };
  chunk_size = 4;
  fuel = 100;
}

abbrev queues : Queues Net
queues = record { incoming = λ u. u.incoming; outgoing = λ u. u.outgoing; waits = λ u. 0 }

pub Takes-all :
    (xs : List ℕ) (u : Net)
    → xs ≢ []
    → length xs < 2 ^ 31
    → Takes queues xs u (net_udt.send 7 xs (length xs) u)
Takes-all [] u h s = absurd (h refl)
Takes-all (x ∷ xs) u h s = (
  omega arith,
  omega arith,
  ap (λ (l : List ℕ). u.outgoing ++ (x ∷ l)) (sym (take_all (length xs) xs (omega arith))),
  refl,
  omega arith,
)

pub something : (xs : List ℕ) → xs ≢ [] → 0 < length xs
something [] h = absurd (h refl)
something (x ∷ xs) h = omega arith

pub Gives-some : (n : ℕ) (u : Net) → 0 < n → u.incoming ≢ [] → Gives queues n u (net_udt.recv 7 n u)
Gives-some n u k h = (
  omega (arith, length-take n u.incoming, something u.incoming h),
  omega (arith, length-take n u.incoming),
  sym (take-append-drop n u.incoming),
  refl,
  omega arith,
)

abbrev pub link : Link net_udt
link = record {
  queues = queues;
  handle = 7;
  takes = Takes-all;
  gives = λ n u k s h. Gives-some n u k h;
}

pub env-Healthy : Healthy env
env-Healthy = record {
  fits = λ xs h. omega arith;
  lossless = λ xs h. refl;
  chunk_pos = omega arith;
  chunk_small = omega arith;
  disk = λ fs p n xs. refl;
}

abbrev pub connected : Context
connected = record new_context { is_open = true; is_connected = true; handle = 7 }

pub connected-IsUp : IsUp env link connected
connected-IsUp = record { is_open = refl; is_connected = refl; handle_eq = refl }

-- The files "a" and "b".
abbrev pub disk : List ℕ → List ℕ → Files
disk a b p = if bytes_eq p (97 ∷ []) then some a else if bytes_eq p (98 ∷ []) then some b else none

-- A connected session with these bytes in front of it.
abbrev pub session : List ℕ → Files → World Net
session words files = record {
  sock = connected;
  net = record { incoming = words; outgoing = []; made = 8 };
  refs = 1;
  files = files;
  reports = [];
}
