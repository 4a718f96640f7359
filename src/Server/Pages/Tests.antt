-- ===== src/Server/Pages/Tests.antt =====
-- A table of two questions that are not in order.
use distributed_oj.Base.{zero, ◌≡◌, refl, List, [], ◌∷◌, ◌++◌, Text, text, map, Perm}
use distributed_oj.Base.Result.{ok}
use distributed_oj.Model.{Question, Row, rows}
use distributed_oj.Model.Questions.{question_of_row}
use distributed_oj.View.{template_path}
use distributed_oj.Control.Sorting.{IsSorted}
use distributed_oj.Server.{World, page}
use distributed_oj.Server.Questions.{get_all_questions}
use distributed_oj.Server.Tests.{small_world, ann_site, request}
use distributed_oj.Server.Pages.{select_all, listing, get_all_questions-page}

abbrev row_of : Text → Row
row_of number zero = number
row_of number _ = text "1"

abbrev two_rows : List Row
two_rows = row_of (text "10") ∷ row_of (text "9") ∷ []

abbrev two_questions : World
two_questions = record small_world {
  env = record small_world.env { answers = λ db sql. rows two_rows };
}

get_all_questions-page_example :
    (qs : List Question) × Perm qs (map question_of_row two_rows)
    × IsSorted qs
    × (get_all_questions two_questions (request []) ann_site ≡ (
      record ann_site { db = select_all ∷ [] },
      ok (page (two_questions.expand (template_path ++ text "all_questions.html") (listing qs))),
    ))
get_all_questions-page_example =
    get_all_questions-page two_questions (request []) ann_site two_rows refl refl
