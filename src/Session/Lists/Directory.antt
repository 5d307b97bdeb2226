-- ===== src/Session/Lists/Directory.antt =====
-- GetFilesInPath of UFT/UFTSession.hpp against the entries of a directory.
use uft.Prelude.{
  ℕ, ◌%◌, ◌^◌, ◌<◌, ◌≡◌, refl, sym, arith, Bool, true, false, List, [], ◌∷◌, ◌++◌, append-nil,
  append_assoc, length, length-take, Option, none, some,
}
use uft.Files.{Os, Files, FilePath, Entry, Stat, found, absent, stat_error, content_of}
use uft.Session.{FileInfo, assign, new_file_info}
use uft.Session.Info.{get_file_info, list_entries, get_files_in_path}
use uft.Session.Offer.{Fits, Stats, described}
use uft.Session.Lists.{AllFit, ListFits}

-- The path of an entry.
abbrev pub within : FilePath → Entry → FilePath
within path entry = path ++ (b'/' ∷ entry.name)

-- The files among the entries: their names, sizes and times.
abbrev entry_file : Bool → ℕ → List ℕ → Option (List ℕ) → List FileInfo → List FileInfo
entry_file true m name o rest = rest
entry_file false m name none rest = rest
entry_file false m name (some c) rest = described m (assign name) (some c) ∷ rest

abbrev pub directory_list : {os : Os} → Stats os → Files → FilePath → List Entry → List FileInfo
directory_list stats fs path [] = []
directory_list stats fs path (entry ∷ entries) =
    entry_file entry.is_dir (stats.mtime fs (within path entry)) entry.name (fs (within path entry))
      (directory_list stats fs path entries)

abbrev pub list_of_directory :
    {os : Os} → Stats os → Files → FilePath → Option (List Entry) → Option (List FileInfo)
list_of_directory stats fs path none = none
list_of_directory stats fs path (some entries) = some (directory_list stats fs path entries)

module _ (os : Os) (stats : Stats os) (fs : Files) (path : FilePath) where
  list_step :
      (is_dir : Bool) (name : List ℕ) (entries : List Entry) (info : FileInfo)
      (files : List FileInfo) (o : Option (List ℕ))
      → fs (path ++ (b'/' ∷ name)) ≡ o
      → length (content_of fs (path ++ (b'/' ∷ name))) < 2 ^ 64
      → ((info' : FileInfo) (files' : List FileInfo)
          → list_entries os fs path false entries info' files'
            ≡ files' ++ directory_list stats fs path entries)
      → list_entries os fs path false (record { is_dir = is_dir; name = name } ∷ entries) info files
        ≡ files
          ++ entry_file is_dir
              (stats.mtime fs (path ++ (b'/' ∷ name)))
              name
              o
              (directory_list stats fs path entries)
  unfolding list_entries get_file_info
  list_step true name entries info files o e h next =
      let told = stats.tells fs (path ++ (b'/' ∷ name)) in ground (arith, next info files)
  list_step false name entries info files none e h next =
      let told = stats.tells fs (path ++ (b'/' ∷ name)) in ground (arith, next new_file_info files)
  list_step false name entries info files (some c) e h next =
      let told = stats.tells fs (path ++ (b'/' ∷ name)) in
      let m = stats.mtime fs (path ++ (b'/' ∷ name)) in
      let new = described m (assign name) (some c) in
      let small : length c % 2 ^ 64 ≡ length c = ground arith in
      ground (
        arith,
        next new (files ++ (new ∷ [])),
        append_assoc files (new ∷ []) (directory_list stats fs path entries),
      )

  list_entries_lem :
      (entries : List Entry) (info : FileInfo) (files : List FileInfo)
      → ((p : FilePath) → length (content_of fs p) < 2 ^ 64)
      → list_entries os fs path false entries info files
        ≡ files ++ directory_list stats fs path entries
  unfolding list_entries
  list_entries_lem [] info files h = sym (append-nil files)
  list_entries_lem (entry ∷ entries) info files h =
      list_step entry.is_dir entry.name entries info files (fs (within path entry)) refl
        (h (within path entry)) λ info' files'. list_entries_lem entries info' files' h

  -- The directory's answer taken apart.
  read_directory :
      (o : Option (List Entry))
      → os.read_dir fs path ≡ o
      → ((p : FilePath) → length (content_of fs p) < 2 ^ 64)
      → get_files_in_path os fs path false ≡ list_of_directory stats fs path o
  unfolding get_files_in_path
  read_directory none e h = ground arith
  read_directory (some entries) e h =
      let told = list_entries_lem entries new_file_info [] h in ground arith

  -- GetFilesInPath without paths, where stat64 tells the size of a file that is there and that
  -- another is absent, and every file is shorter than 2 ^ 64: it answers with the name, size and
  -- time of each entry that is no directory and is there, in the directory's order, or that the
  -- directory does not open.
  pub get_files_in_path_lem :
      ((p : FilePath) → length (content_of fs p) < 2 ^ 64)
      → get_files_in_path os fs path false ≡ list_of_directory stats fs path (os.read_dir fs path)
  get_files_in_path_lem h = read_directory (os.read_dir fs path) refl h

module _ (os : Os) (fs : Files) (path : FilePath) where
  AllFit-append :
      (files : List FileInfo) (info : FileInfo)
      → AllFit files
      → Fits info
      → AllFit (files ++ (info ∷ []))
  AllFit-append [] info f g = (g, tt)
  AllFit-append (file ∷ files) info (f, fs') g = (f, AllFit-append files info fs' g)

  named-Fits :
      (name : List ℕ) (size time : ℕ)
      → Fits (record { path = assign name; size = size % 2 ^ 64; timestamp = time % 2 ^ 32 })
  unfolding assign
  named-Fits name size time = record {
    path_fits = omega (arith, length-take (length name % 256) name);
    size_fits = omega arith;
    timestamp_fits = omega arith;
  }

  fit_step :
      (is_dir : Bool) (name : List ℕ) (entries : List Entry) (info : FileInfo)
      (files : List FileInfo) (s : Stat)
      → os.stat fs (path ++ (b'/' ∷ name)) ≡ s
      → AllFit files
      → ((info' : FileInfo) (files' : List FileInfo)
          → AllFit files'
          → AllFit (list_entries os fs path false entries info' files'))
      → AllFit (
          list_entries os fs path false
            (record { is_dir = is_dir; name = name } ∷ entries)
            info
            files)
  unfolding list_entries get_file_info
  fit_step true name entries info files s e f next = next info files f
  fit_step false name entries info files (found size time) e f next =
      rw e (next _ _ (AllFit-append files _ f (named-Fits name size time)))
  fit_step false name entries info files absent e f next = rw e (next _ files f)
  fit_step false name entries info files stat_error e f next = rw e (next _ files f)

  list_entries-AllFit :
      (entries : List Entry) (info : FileInfo) (files : List FileInfo)
      → AllFit files
      → AllFit (list_entries os fs path false entries info files)
  unfolding list_entries
  list_entries-AllFit [] info files f = f
  list_entries-AllFit (entry ∷ entries) info files f =
      fit_step entry.is_dir entry.name entries info files (os.stat fs (within path entry)) refl f
        λ info' files' g. list_entries-AllFit entries info' files' g

  list-Fits :
      (o : Option (List Entry))
      → os.read_dir fs path ≡ o
      → ListFits (get_files_in_path os fs path false)
  unfolding get_files_in_path
  list-Fits none e = rw (get_files_in_path, e) tt
  list-Fits (some entries) e =
      rw (get_files_in_path, e) (list_entries-AllFit entries new_file_info [] tt)

  -- The fields of a FileInfo hold what GetFilesInPath puts there.
  pub get_files_in_path-ListFits : ListFits (get_files_in_path os fs path false)
  get_files_in_path-ListFits = list-Fits (os.read_dir fs path) refl
