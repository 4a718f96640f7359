-- ===== src/Model/Listed.antt =====
-- oj_server/oj_model.hpp: the older class Model, which keeps the questions in memory and reads them
-- from files at its start.
pub mod Lookup
mod Tests
use distributed_oj.Base.{
  Bool, true, false, List, [], ◌∷◌, ◌++◌, Option, none, some, Text, text, text_eq, map,
  if◌then◌else◌,
}
use distributed_oj.Comm.Int.{atoi}
use distributed_oj.Comm.Cookie.{pieces}
use distributed_oj.Comm.Files.{Disk, read_file}
use distributed_oj.Model.{Question}

-- `unordered_map<std::string, Question> questions`, in the order of insertion; the order in which
-- the source goes through it is not specified.
abbrev pub Listing : Type 0
Listing = List (Text × Question)

unfoldable pub lookup : Text → Listing → Option Question
lookup number [] = none
lookup number ((key, q) ∷ rest) = if text_eq key number then some q else lookup number rest

-- `insert`, which does nothing where the key is there
unfoldable pub insert : Text → Question → Listing → Listing
insert number q [] = (number, q) ∷ []
insert number q ((key, old) ∷ rest) =
    if text_eq key number then (key, old) ∷ rest else (key, old) ∷ insert number q rest

abbrev pub questions_path : Text
questions_path = text "./questions/"

-- The three files of a question; one that does not open leaves its text empty.
abbrev pub file_of : Disk → Text → Text → Text
file_of disk number name =
    (read_file disk (questions_path ++ (number ++ (text "/" ++ name))) true).0

-- The question that five tokens and the files make
unfoldable pub question_of : Disk → Text → Text → Text → Text → Text → Question
unfolding read_file
question_of disk number title star cpu_limit mem_limit = record {
  number = number;
  title = title;
  star = star;
  cpu_limit = atoi cpu_limit;
  mem_limit = atoi mem_limit;
  desc = file_of disk number (text "desc.txt");
  header = file_of disk number (text "header.cpp");
  tail = file_of disk number (text "tail.cpp");
}

-- One line, cut at blanks: `none` where it has not five tokens and is passed over.
unfoldable pub read_question : Disk → List Text → Option Question
read_question disk (number ∷ title ∷ star ∷ cpu_limit ∷ mem_limit ∷ []) =
    some (question_of disk number title star cpu_limit mem_limit)
read_question disk _ = none

abbrev pub insert_read : Option Question → Listing → Listing
insert_read none questions = questions
insert_read (some q) questions = insert q.number q questions

-- `split` is boost::split with token compression, on a text and its separators.
module _ (split : Text → Text → List Text) (disk : Disk) where
  unfoldable pub load_entries : List Text → Listing → Listing
  load_entries [] questions = questions
  load_entries (line ∷ lines) questions =
      load_entries lines (insert_read (read_question disk (split line (text " "))) questions)

  -- `LoadQuestionList`, which returns false where the list does not open
  unfoldable pub load_question_list : Text → Listing → Listing × Bool
  unfolding pieces
  load_question_list question_list questions = elim (disk question_list) [
    | none ↦ (questions, false)
    | some content ↦ (load_entries (pieces b'\n' content) questions, true)
  ]

-- `GetAllQuestions`, `none` where it returns false
unfoldable pub get_listed : Listing → Option (List Question)
get_listed [] = none
get_listed (entry ∷ rest) = some (map (λ (e : Text × Question). e.1) (entry ∷ rest))

-- `GetOneQuestion`
unfoldable pub get_listed_question : Text → Listing → Option Question
get_listed_question number questions = lookup number questions
