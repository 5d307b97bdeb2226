-- ===== src/Programs/Laws.antt =====
-- What the programs UFT/uft_client.cpp and UFT/uft_server.cpp do as a whole.
use uft.Prelude.{
  ℕ, ◌^◌, ◌≤◌, ◌<◌, ◌≡◌, ap, fun_ext, ◌∙◌, arith, Bool, true, List, [], ◌++◌, length, Option, some,
  inr, ok, fail, Program, Outcome, Code, codes,
}
use uft.World.{World, Env}
use uft.Files.{update as update_file}
use uft.Client.{connect_client}
use uft.CmdLineArgs.{Args, parse_args}
use uft.Programs.{pos, Libc, settle}
use uft.Programs.UftClient.{ClientArgs, client_args, run_command, run_client, client_main}
use uft.Session.{c_string}
use uft.Session.Packet.{disconnect}
use uft.Session.Transmit.{send_file, receive_file}
use uft.Session.{down}
use uft.Session.Copy.{source_words}
use uft.Session.Ends.{Target}
use uft.Session.Meeting.{bytes_of, is_fresh, tells}
use uft.Session.Offer.{Stats, is_path}
use uft.Session.Public.{AtRest, receive_file-copies}
use uft.Socket.Delivery.{Link}
use uft.Socket.{new_context, set_timeout, close}

-- A process that has just created its UFTClient.
abbrev pub started : {U : Type 0} → World U → World U
started w = record w { sock = new_context }

-- The arguments and the calls with which the client reaches its command: `w₁` is the state after
-- Connect, `w₂` the state after SetTimeout.
pub record Reaches {U : Type 0} (env : Env U) (libc : Libc) (argv : List (List ℕ)) (a : ClientArgs)
    (w w₁ w₂ : World U) : Type 0 where
  pub args : Args
  pub address : ℕ
  pub parsed : parse_args argv [] ≡ some args
  pub complete : client_args libc args ≡ inr a
  pub is_address : libc.inet_pton (c_string a.remote_host) ≡ some address
  pub connects : connect_client env (libc.ntohl address) a.remote_port (started w) ≡ ok true w₁
  pub sets : set_timeout env a.timeout w₁ ≡ ok true w₂

module _ {W A : Type 0} where
  settle-ok : (m : Program W A) (a : A) (w w' : W) → m w ≡ ok a w' → settle m w ≡ ok tt w'
  settle-ok m a w w' e = ap (λ (o : Outcome W A). settle (λ (w : W). o) w) e

  settle-fail : (m : Program W A) (c : Code) (w w' : W) → m w ≡ fail c w' → settle m w ≡ ok tt w'
  settle-fail m c w w' e = ap (λ (o : Outcome W A). settle (λ (w : W). o) w) e

module _ {U : Type 0} (env : Env U) (libc : Libc) where
  client_main_lem :
      (argv : List (List ℕ)) (a : ClientArgs) (w w₁ w₂ w₃ : World U)
      → Reaches env libc argv a w w₁ w₂
      → run_command env libc a w₂ ≡ ok tt w₃
      → client_main env libc argv w ≡ ok (pos 0) (disconnect env w₃)
  unfolding client_main run_client
  client_main_lem argv a w w₁ w₂ w₃ r e =
      let p = r.parsed in
      let c = r.complete in
      let i = r.is_address in let n = r.connects in let s = r.sets in ground arith

  -- uft_client with complete arguments and the command send_file, where Connect and SetTimeout
  -- answer true and SendFile fails with any code: it exits with 0 after Disconnect.
  pub client_main_hides_failure :
      (argv : List (List ℕ)) (a : ClientArgs) (c : Code) (w w₁ w₂ w₃ : World U)
      → Reaches env libc argv a w w₁ w₂
      → a.command ≡ codes "send_file"
      → send_file env (c_string a.source) (c_string a.destination) true w₂ ≡ fail c w₃
      → client_main env libc argv w ≡ ok (pos 0) (disconnect env w₃)
  unfolding run_command
  client_main_hides_failure argv a c w w₁ w₂ w₃ r h e = client_main_lem argv a w w₁ w₂ w₃ r (
      rw h
        (settle-fail (send_file env (c_string a.source) (c_string a.destination) true) c w₂ w₃ e))

  disconnect-files : (w : World U) → (disconnect env w).files ≡ w.files
  unfolding disconnect close
  disconnect-files w = ground arith

  -- uft_client with complete arguments and the command receive_file, where Connect and SetTimeout
  -- answer true and leave the session at rest, the destination holds `o`, or nothing, and opens,
  -- both paths fit a String8, lengths are below 2 ^ 63 and within the fuel, the hashes tell
  -- compared chunks apart, and what a sender of `content` says comes in: it exits with 0, and of
  -- the files the destination, which holds `content`, is all that has changed since SetTimeout.
  pub client_main_receives :
      (link : Link env.udt) (stats : Stats env.os) (argv : List (List ℕ)) (a : ClientArgs) (m : ℕ)
      (fresh : Bool) (content more : List ℕ) (o : Option (List ℕ)) (w w₁ w₂ : World U)
      → Reaches env libc argv a w w₁ w₂
      → a.command ≡ codes "receive_file"
      → AtRest env link stats w₂
      → Target env link w₂.files (c_string a.destination) o fresh
      → is_path (c_string a.source) ≡ true
      → length content < 2 ^ 63
      → length content ≤ env.fuel
      → is_fresh (stats.mtime w₂.files (c_string a.destination)) o content ≡ fresh
      → tells env link fresh content (bytes_of o) ≡ true
      → link.queues.incoming w₂.net
        ≡ source_words env link stats m (c_string a.source) down fresh content o ++ more
      → (w' : World U) × (client_main env libc argv w ≡ ok (pos 0) w')
        × (w'.files ≡ update_file w₂.files (c_string a.destination) content)
  unfolding run_command
  client_main_receives link stats argv a m fresh content more o w w₁ w₂ r h c t p s k b d i =
      let (v, rs, fs, run, holds, talk) =
        receive_file-copies env link stats (c_string a.source) (c_string a.destination) m fresh true
          content more o w₂ c t p s k b d i in
      let w₃ = record w₂ { net = v; reports = rs; files = fs } in
      (
        disconnect env w₃,
        client_main_lem argv a w w₁ w₂ w₃ r (
            rw h (
              settle-ok (receive_file env (c_string a.source) (c_string a.destination) true) tt w₂
                w₃ run)),
        disconnect-files w₃ ∙ fun_ext holds,
      )
