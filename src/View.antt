-- ===== src/View.antt =====
-- oj_server/oj_view.hpp: the dictionaries that the pages are expanded from. ctemplate itself is not
-- part of the repository and is a function from a template's path and a dictionary to a page.
use distributed_oj.Base.{List, [], ◌∷◌, ◌++◌, Option, none, some, Text, text, map, if◌then◌else◌}
use distributed_oj.Comm.Int.{ℤ, to_string, is_zero}
use distributed_oj.Model.{Question, User, UserProgress, Backend}

-- A TemplateDictionary: its name, its values, and the sections added to it with their values.
pub record Dictionary : Type 0 where
  pub name : Text
  pub values : List (Text × Text)
  pub sections : List (Text × List (Text × Text))

abbrev pub Expand : Type 0
Expand = Text → Dictionary → Text

abbrev pub template_path : Text
template_path = text "./template_html/"

abbrev pub role_text : ℤ → Text
role_text is_admin = if is_zero is_admin then text "普通用户" else text "管理员"

-- `to_string(u.id)`, for a user that a row has filled
abbrev pub id_text : Option ℤ → Text
id_text none = []
id_text (some id) = to_string id

abbrev pub question_section : Question → Text × List (Text × Text)
question_section q = (
  text "question_list",
  (text "number", q.number) ∷ (text "title", q.title) ∷ (text "star", q.star) ∷ [],
)

unfoldable pub expand_all_html : Expand → List Question → Text
expand_all_html expand questions =
    expand (template_path ++ text "all_questions.html") (record {
      name = text "all_questions";
      values = [];
      sections = map question_section questions;
    })

unfoldable pub one_expand_html : Expand → Question → Text
one_expand_html expand q = expand (template_path ++ text "one_question.html") (record {
  name = text "one_question";
  values =
      (text "number", q.number)
      ∷ (text "title", q.title)
      ∷ (text "star", q.star)
      ∷ (text "desc", q.desc)
      ∷ (text "pre_code", q.header)
      ∷ [];
  sections = [];
})

abbrev pub user_section : User → Text × List (Text × Text)
user_section u = (
  text "user_list",
  (text "number", id_text u.id)
      ∷ (text "username", u.name)
      ∷ (text "isAdmin", role_text u.is_admin)
      ∷ [],
)

unfoldable pub user_all_html : Expand → List User → Text
user_all_html expand users =
    expand (template_path ++ text "all_users.html")
      (record { name = text "all_users"; values = []; sections = map user_section users })

unfoldable pub user_one_html : Expand → User → Text
user_one_html expand u = expand (template_path ++ text "one_user.html") (record {
  name = text "one_user";
  values = (text "username", u.name) ∷ (text "isAdmin", role_text u.is_admin) ∷ [];
  sections = [];
})

abbrev pub progress_section : Backend → UserProgress → Text × List (Text × Text)
progress_section env up = (
  text "user_progress_list",
  (text "question_number", to_string up.question_id)
      ∷ (text "isCompleted", (if up.is_completed then text "已完成" else text "未完成"))
      ∷ (text "completedTime", env.format_time up.completed_time)
      ∷ (text "attemptCount", to_string up.attempt_count)
      ∷ [],
)

unfoldable pub all_user_progress : Backend → Expand → List UserProgress → Text
all_user_progress env expand progresses = expand (template_path ++ text "one_user.html") (record {
  name = text "all_user_progress";
  values = [];
  sections = map (progress_section env) progresses;
})

unfoldable pub generate_user_detail_page : Backend → Expand → User → List UserProgress → Text
generate_user_detail_page env expand u progresses =
    expand (template_path ++ text "one_user.html") (record {
      name = text "one_user";
      values = (text "username", u.name) ∷ (text "isAdmin", role_text u.is_admin) ∷ [];
      sections = map (progress_section env) progresses;
    })
