-- ===== src/Server/Pages.antt =====
-- oj_server/oj_server.cc, the handler of /all_questions, from the table to the page.
mod Tests
use distributed_oj.Base.{
  ◌≡◌, refl, ap, Option, true, List, [], ◌∷◌, ◌++◌, some, Text, text, map, Perm,
}
use distributed_oj.Base.Result.{ok}
use distributed_oj.Model.{Question, Row, rows, query_rows, Db, Backend}
use distributed_oj.Model.Questions
use distributed_oj.View.{Dictionary, Expand, template_path, question_section, expand_all_html}
use distributed_oj.Control.Questions.{sort, all_questions}
use distributed_oj.Control.Sorting.{IsSorted, sort-IsSorted}
use distributed_oj.Server.{Request, Site, World, Outcome, page}
use distributed_oj.Server.Questions.{get_all_questions}

abbrev pub select_all : Text
select_all = text "SELECT * FROM questions"

-- The dictionary of a page that lists these questions
abbrev pub listing : List Question → Dictionary
listing qs = record { name = text "all_questions"; values = []; sections = map question_section qs }

get_all_questions-rows :
    (env : Backend) (db : Db) (rs : List Row)
    → env.connects db ≡ true
    → env.answers db select_all ≡ rows rs
    → Questions.get_all_questions env db
      ≡ (db ++ (select_all ∷ []), some (map Questions.question_of_row rs))
unfolding Questions.get_all_questions Questions.query_mysql query_rows
get_all_questions-rows env db rs up e = rw (up, e) refl

all_questions-rows :
    (env : Backend) (expand : Expand) (db : Db) (rs : List Row)
    → env.connects db ≡ true
    → env.answers db select_all ≡ rows rs
    → all_questions env expand db ≡ (
      db ++ (select_all ∷ []),
      expand
          (template_path ++ text "all_questions.html")
          (listing (sort (map Questions.question_of_row rs))),
      true,
    )
unfolding all_questions expand_all_html
all_questions-rows env expand db rs up e =
    let k = get_all_questions-rows env db rs up e in
    rw (all_questions, k)
      (ap
        (λ (r : Db × Option (List Question)). (
          r.0,
          expand (template_path ++ text "all_questions.html")
              (listing (sort (map Questions.question_of_row rs))),
          true,
        ))
        k)

-- While the database can be reached and answers with rows: /all_questions is answered with the page
-- that lists the questions of these rows, each row as often as it is there, and none before one of
-- a smaller number. The query is the only change.
pub get_all_questions-page :
    (w : World) (req : Request) (site : Site) (rs : List Row)
    → w.env.connects site.db ≡ true
    → w.env.answers site.db select_all ≡ rows rs
    → (qs : List Question) × Perm qs (map Questions.question_of_row rs)
      × IsSorted qs
      × (get_all_questions w req site ≡ (
        record site { db = site.db ++ (select_all ∷ []) },
        ok (page (w.expand (template_path ++ text "all_questions.html") (listing qs))),
      ))
unfolding get_all_questions
get_all_questions-page w req site rs up e =
    let qs = map Questions.question_of_row rs in
    let (same, sorted) = sort-IsSorted qs in
    (sort qs, same, sorted, rw (all_questions-rows w.env w.expand site.db rs up e) refl)
