-- ===== src/Model/Listed/Tests.antt =====
-- A list of two questions with the same number, of which the first counts.
use distributed_oj.Base.{◌≡◌, refl, List, [], ◌∷◌, none, some, Text, text}
use distributed_oj.Comm.Cookie.{pieces}
use distributed_oj.Comm.Files.{Disk}
use distributed_oj.Model.Listed.{
  get_listed_question, load_entries, lookup, insert, read_question, question_of,
}
use distributed_oj.Model.Listed.Lookup.{or_else, first_listed, get_listed_question-load_entries}

abbrev no_files : Disk
no_files path = none

abbrev split_blank : Text → Text → List Text
split_blank line separators = pieces b' ' line

abbrev entries : List Text
entries = text "1 sum easy 1 30000" ∷ text "2 broken" ∷ text "1 again hard 2 30000" ∷ []

entries_test :
    get_listed_question (text "1") (load_entries split_blank no_files entries [])
    ≡ some (question_of no_files (text "1") (text "sum") (text "easy") (text "1") (text "30000"))
unfolding get_listed_question load_entries lookup insert read_question question_of pieces
entries_test = refl

get_listed_question-load_entries_example :
    get_listed_question (text "1") (load_entries split_blank no_files entries [])
    ≡ or_else
        (get_listed_question (text "1") [])
        (first_listed split_blank no_files (text "1") entries)
get_listed_question-load_entries_example =
    get_listed_question-load_entries split_blank no_files (text "1") entries []
