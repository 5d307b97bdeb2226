-- ===== src/Session/Info.antt =====
-- UFT/UFTSession.hpp: GetFileInfo and GetFilesInPath, over stat64 and readdir.
use uft.Prelude.{
  ◌%◌, ◌^◌, Bool, true, false, not, Option, none, some, List, [], ◌∷◌, ◌++◌, if◌then◌else◌,
}
use uft.Files.{Stat, found, absent, stat_error, Entry, FilePath, Files, Os}
use uft.Session.{FileInfo, assign, new_file_info}

-- The answers 1, -1 and 0.
pub data Answer : Type 0 where
  present missing failed : Answer

abbrev pub is_present : Answer → Bool
is_present present = true
is_present missing = false
is_present failed = false

abbrev of_stat : Stat → FilePath → FileInfo → Bool → Answer × FileInfo
of_stat (found size mtime) path info set_path = (
  present,
  record {
    path = if set_path then assign path else info.path;
    size = size % 2 ^ 64;
    timestamp = mtime % 2 ^ 32;
  },
)
of_stat absent path info set_path =
    (missing, record { path = if set_path then [] else info.path; size = 0; timestamp = 0 })
of_stat stat_error path info set_path = (failed, info)

-- GetFileInfo
unfoldable pub get_file_info : Os → Files → FilePath → FileInfo → Bool → Answer × FileInfo
get_file_info os fs path info set_path = of_stat (os.stat fs path) path info set_path

-- One entry: the FileInfo variable after it, and the list.
abbrev listed :
    Bool → Bool → FileInfo → FileInfo → FileInfo → List FileInfo → FileInfo × List FileInfo
listed true _ info info' named files = (info, files)
listed false false info info' named files = (info', files)
listed false true info info' named files = (named, files ++ (named ∷ []))

-- The loop of GetFilesInPath; `info` lives through the rounds.
unfoldable pub list_entries :
    Os → Files → FilePath → Bool → List Entry → FileInfo → List FileInfo → List FileInfo
unfolding get_file_info
list_entries os fs path include_path [] info files = files
list_entries os fs path include_path (entry ∷ entries) info files =
    let (answer, info') =
      get_file_info os fs (path ++ (b'/' ∷ entry.name)) info (not include_path) in
    let named = if include_path then info' else record info' { path = assign entry.name } in
    let (next_info, next_files) = listed entry.is_dir (is_present answer) info info' named files in
    list_entries os fs path include_path entries next_info next_files

-- GetFilesInPath: `none` where the directory does not open.
unfoldable pub get_files_in_path : Os → Files → FilePath → Bool → Option (List FileInfo)
unfolding list_entries
get_files_in_path os fs path include_path = elim (os.read_dir fs path) [
  | none ↦ none
  | some entries ↦ some (list_entries os fs path include_path entries new_file_info [])
]
