-- ===== src/Files.antt =====
-- Files and the streams over them, as UFT/UFTSession.hpp uses std::ifstream, std::ofstream and
-- std::fstream. What the operating system decides is the parameter `Os`.
pub mod Content
use uft.Prelude.{
  ℕ, ◌+◌, ◌-◌, ◌^◌, Bool, true, false, ◌&&◌, Option, none, some, List, [], ◌∷◌, ◌++◌, length, take,
  drop, replicate, ltb, leb, bytes_eq, if◌then◌else◌,
}

-- A path is the bytes of a C string before its end.
abbrev pub FilePath : Type 0
FilePath = List ℕ

abbrev pub Files : Type 0
Files = FilePath → Option (List ℕ)

abbrev pub update : Files → FilePath → List ℕ → Files
update fs p content q = if bytes_eq p q then some content else fs q

-- The answer of stat64: st_size and st_mtime, ENOENT or ENOTDIR, or another error.
pub data Stat : Type 0 where
  found : ℕ → ℕ → Stat
  absent : Stat
  stat_error : Stat

-- A dirent: whether d_type is DT_DIR, and d_name.
pub record Entry : Type 0 where
  pub is_dir : Bool
  pub name : List ℕ

pub data Mode : Type 0 where
  reading truncating updating : Mode

-- stat64, opendir with readdir, whether an open is granted, and whether written bytes get through.
pub record Os : Type 0 where
  pub stat : Files → FilePath → Stat
  pub read_dir : Files → FilePath → Option (List Entry)
  pub may_open : Files → FilePath → Mode → Bool
  pub may_write : Files → FilePath → ℕ → List ℕ → Bool

-- `good` is good(): in this program eofbit is set only together with failbit.
pub record Stream : Type 0 where
  pub path : FilePath
  pub pos : ℕ
  pub good : Bool

abbrev pub at_start : FilePath → Stream
at_start p = record { path = p; pos = 0; good = true }

-- The content of a file, where it exists.
abbrev pub content_of : Files → FilePath → List ℕ
content_of fs p = elim (fs p) [ none ↦ [] | some c ↦ c ]

abbrev pub exists : Files → FilePath → Bool
exists fs p = elim (fs p) [ none ↦ false | some c ↦ true ]

-- is_open() after each constructor, with the files it leaves: std::ios::trunc empties the file.
abbrev pub open_stream : Os → Files → FilePath → Mode → Option Files
open_stream os fs p Mode.reading =
    if exists fs p && os.may_open fs p Mode.reading then some fs else none
open_stream os fs p Mode.truncating =
    if os.may_open fs p Mode.truncating then some (update fs p []) else none
open_stream os fs p Mode.updating =
    if exists fs p && os.may_open fs p Mode.updating then some fs else none

-- seekg and seekp: a failed stream does not move, and a streampos is signed.
abbrev pub seek : ℕ → Stream → Stream
seek n s =
    if s.good
    then (if ltb n (2 ^ 63) then record s { pos = n } else record s { good = false })
    else s

abbrev pub clear : Stream → Stream
clear s = record s { good = true }

-- read(buffer, n): the bytes that gcount() counts. A short read fails the stream.
abbrev pub read : ℕ → Files → Stream → List ℕ × Stream
read n fs s =
    if s.good
    then (let xs = take n (drop s.pos (content_of fs s.path)) in
        (xs, record s { pos = s.pos + length xs; good = leb n (length xs) }))
    else ([], s)

-- The content with `xs` written at `pos`; a gap before it reads as zeros.
abbrev pub overlay : List ℕ → ℕ → List ℕ → List ℕ
overlay c pos xs = take pos c ++ (replicate (pos - length c) 0 ++ (xs ++ drop (pos + length xs) c))

abbrev pub write : Os → List ℕ → Files → Stream → Files × Stream
write os xs fs s =
    if s.good
    then (if os.may_write fs s.path s.pos xs
        then (
          update fs s.path (overlay (content_of fs s.path) s.pos xs),
          record s { pos = s.pos + length xs },
        )
        else (fs, record s { good = false }))
    else (fs, s)
