-- ===== src/Comm/Files.antt =====
-- comm/util.hpp, FileUtil: reading and writing whole files, and the names of new ones. A disk gives
-- each path its content; `none` is a path where there is no file.
pub mod Reading
pub mod Names
pub mod Race
mod Tests
use distributed_oj.Base.{
  ℕ, suc, ◌+◌, ◌%◌, ◌^◌, Bool, true, false, List, [], ◌∷◌, ◌++◌, Option, none, some, Text, text,
  text_eq, if◌then◌else◌,
}
use distributed_oj.Comm.Int.{to_string_nat}
use distributed_oj.Comm.Cookie.{pieces}

abbrev pub Disk : Type 0
Disk = Text → Option Text

unfoldable pub put : Disk → Text → Option Text → Disk
put disk path content other = if text_eq path other then content else disk other

-- `IsFileExits`
abbrev pub is_file_exits : Disk → Text → Bool
is_file_exits disk path = elim (disk path) [ none ↦ false | some _ ↦ true ]

-- `WriteFile`; `opens` says whether the file system lets the path be opened.
unfoldable pub write_file : (Text → Bool) → Disk → Text → Text → Disk × Bool
unfolding put
write_file opens disk target code =
    if opens target then (put disk target (some code), true) else (disk, false)

abbrev pub join_lines : Bool → List Text → Text
join_lines keep [] = []
join_lines keep (line ∷ lines) =
    line ++ ((if keep then b'\n' ∷ [] else []) ++ join_lines keep lines)

-- The content that `ReadFile` collects line by line; `keep` puts the line ends back.
unfoldable pub read_lines : Text → Bool → Text
unfolding pieces
read_lines content keep = join_lines keep (pieces b'\n' content)

-- `ReadFile`; a file that cannot be opened leaves the content empty.
unfoldable pub read_file : Disk → Text → Bool → Text × Bool
read_file disk target keep = elim (disk target) [
  | none ↦ ([], false)
  | some content ↦ (read_lines content keep, true)
]

-- `id++` on an `atomic_uint`
abbrev pub next_id : ℕ → ℕ
next_id id = (id + 1) % 2 ^ 32

abbrev pub file_name_of : ℕ → ℕ → Text
file_name_of ms id = to_string_nat ms ++ (b'_' ∷ to_string_nat id)

-- `UniqFileName` with no other call in between: the counter goes up, and the name is the time in
-- milliseconds and the counter.
unfoldable pub uniq_file_name : ℕ → ℕ → ℕ × Text
uniq_file_name ms id = (next_id id, file_name_of ms (next_id id))

-- Calls made one after another, at the given times.
unfoldable pub uniq_names : List ℕ → ℕ → List Text
unfolding uniq_file_name
uniq_names [] id = []
uniq_names (ms ∷ times) id = let (id', name) = uniq_file_name ms id in name ∷ uniq_names times id'
