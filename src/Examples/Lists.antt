-- ===== src/Examples/Lists.antt =====
-- The examples of file lists: the directory "d" of Examples/Copies with one file.
use uft.Prelude.{
  ℕ, ◌^◌, ◌<◌, ◌≡◌, refl, arith, Bool, true, false, List, [], ◌∷◌, length, none, some,
  if◌then◌else◌, bytes_eq,
}
use uft.World.{World}
use uft.Files.{Files, FilePath, content_of}
use uft.Session.{assign}
use uft.Session.Exchange.{Talk}
use uft.Session.Info.{get_files_in_path, list_entries, get_file_info}
use uft.Session.Transmit.{get_files, update}
use uft.Session.Lists.{list_request, list_message}
use uft.Session.Lists.Directory.{list_of_directory, get_files_in_path_lem}
use uft.Session.Lists.Exchange.{outcome_of, list_result}
use uft.Session.Lists.Agreement.{listed_by, lists_agree}
use uft.Session.Service.Asking.{Turns}
use uft.Socket.Delivery.{at}
use uft.Examples.{Net, session}
use uft.Examples.Transfers.{content}
use uft.Examples.Copies.{env, link, stats, idle, session-AtRest}

abbrev directory : FilePath
directory = 100 ∷ []

abbrev files : Files
files p = if bytes_eq p (100 ∷ 47 ∷ 97 ∷ []) then some content else none

present-small :
    (b : Bool)
    → length (elim (if b then some content else none) as (λ o. List ℕ) [ none ↦ [] | some c ↦ c ])
      < 2 ^ 64
present-small true = omega arith
present-small false = omega arith

files-small : (p : FilePath) → length (content_of files p) < 2 ^ 64
files-small p = present-small (bytes_eq p (100 ∷ 47 ∷ 97 ∷ []))

get_files_in_path_example :
    get_files_in_path env.os files directory false
    ≡ list_of_directory stats files directory (env.os.read_dir files directory)
get_files_in_path_example = get_files_in_path_lem env.os stats files directory files-small

abbrev server : World Net
server = session (list_request directory) files

abbrev client : World Net
client = session (list_message (listed_by env link stats server directory)) (λ p. none)

lists_agree_example :
    ((v : Net) × (get_files env directory client
        ≡ outcome_of
            (list_result env link (listed_by env link stats server directory))
            (at env link client v))
      × Talk env link
          (list_request directory)
          (list_message (listed_by env link stats server directory))
          client.net
          v)
    × Turns env link
        (update env)
        (list_message (listed_by env link stats server directory))
        (list_request directory)
        server.files
        server
unfolding get_files_in_path list_entries get_file_info assign
lists_agree_example =
    lists_agree env link stats directory client server
      (session-AtRest (list_message (listed_by env link stats server directory)) (λ p. none))
      (session-AtRest (list_request directory) files) refl (omega arith, omega arith)
      (omega arith, omega arith) idle refl refl refl
