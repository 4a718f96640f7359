-- ===== src/Server/Questions.antt =====
-- oj_server/oj_server.cc: the handlers on questions.
use distributed_oj.Base.{true, not, ◌&&◌, [], none, some, Text, text, if◌then◌else◌}
use distributed_oj.Base.Result.{Result, ok, throws, undefined, ◌>>=◌}
use distributed_oj.Comm.Int.{ℤ, stoi, is_zero}
use distributed_oj.Comm.Numbers.{is_valid_number}
use distributed_oj.Json.{JsonCpp, Object}
use distributed_oj.Model.{Question, no_user}
use distributed_oj.Control.Users.{get_user_info}
use distributed_oj.Control.Questions.{
  modify_question, add_question, delete_question, all_questions, question,
}
use distributed_oj.Server.{
  Request, json, page, Site, World, Outcome, find, user_of_session, success, failure, param_or,
}

-- The limits, converted in order: the first exception wins.
unfoldable pub read_limits : Text → Text → Result (ℤ × ℤ)
read_limits cpu mem = do c ← stoi cpu; m ← stoi mem; ok (c, m)

-- A `try` block over a conversion: `catch` puts the exception's text into the response.
abbrev pub or_error : Site → Result (Site × Object) → Outcome
or_error site (ok (site', object)) = (site', ok (json object))
or_error site (throws what) = (site, ok (json (failure what)))
or_error site undefined = (site, undefined)

-- POST /updateQuestion
unfoldable pub post_update_question : World → Request → Site → Outcome
unfolding read_limits modify_question
post_update_question w req site =
    let field = λ (key : Text). param_or req key [] in
    or_error site (do
      (cpu_limit, mem_limit) ← read_limits (field (text "cpu_limit")) (field (text "mem_limit"))
      let q : Question = record {
        number = field (text "number");
        title = field (text "title");
        star = field (text "star");
        cpu_limit = cpu_limit;
        mem_limit = mem_limit;
        desc = field (text "desc");
        header = field (text "header");
        tail = field (text "tail");
      }
      let (db1, done) = modify_question w.env q site.db
      ok (record site { db = db1 }, success done))

-- The texts of the form of a new question
pub record Form : Type 0 where
  pub title : Text
  pub star : Text
  pub question_desc : Text
  pub header : Text
  pub tail : Text
  pub time_limit : Text
  pub mem_limit : Text

unfoldable pub read_form : (j : JsonCpp) → j.Value → Result Form
read_form j v = do
  title ← j.get_string v (text "title")
  star ← j.get_string v (text "star")
  question_desc ← j.get_string v (text "question_desc")
  header ← j.get_string v (text "header")
  tail ← j.get_string v (text "tail")
  time_limit ← j.get_string v (text "time_limit")
  mem_limit ← j.get_string v (text "mem_limit")
  ok (record {
    title = title;
    star = star;
    question_desc = question_desc;
    header = header;
    tail = tail;
    time_limit = time_limit;
    mem_limit = mem_limit;
  })

-- The `try` block of the handler
unfoldable pub add_from_form : World → Form → Site → Outcome
unfolding read_limits add_question
add_from_form w form site = or_error site (
    if not (is_valid_number form.time_limit && is_valid_number form.mem_limit)
    then throws (text "Invalid time_limit or mem_limit value")
    else (read_limits form.time_limit form.mem_limit >>= λ (time_limit, mem_limit).
        let q : Question = record {
          number = [];
          title = form.title;
          star = form.star;
          cpu_limit = time_limit;
          mem_limit = mem_limit;
          desc = form.question_desc;
          header = form.header;
          tail = form.tail;
        } in
        let (db1, done) = add_question w.env q site.db in
        ok (
          record site { db = db1 },
          (if done then success true else failure (text "Failed to add question")),
        )))

-- POST /addQuestion. `it->second` comes before any test: without a session it is undefined.
unfoldable pub post_add_question : World → Request → Site → Outcome
unfolding find read_form add_from_form
post_add_question w req site = elim (user_of_session req site) [
  | none ↦ (site, undefined)
  | some username ↦
      let (parsed, v) = w.json_cpp.parse req.body in
      if parsed
      then (elim (read_form w.json_cpp v) [
        | ok form ↦ add_from_form w form site
        | throws what ↦ (site, throws what)
        | undefined ↦ (site, undefined)
      ])
      else (site, ok (json (failure (text "Invalid JSON data"))))
]

-- DELETE /deleteQuestion/(\d+)
unfoldable pub delete_delete_question : World → Request → Site → Outcome
unfolding find get_user_info delete_question
delete_delete_question w req site = elim (user_of_session req site) [
  | none ↦ (site, ok (json (failure (text "Invalid session"))))
  | some username ↦
      let (db1, u, found) = get_user_info w.env username no_user site.db in
      if found && not (is_zero u.is_admin)
      then (let (db2, done) = delete_question w.env req.captured db1 in
          (
            record site { db = db2 },
            ok (json (if done then success true else failure (text "Failed to delete question"))),
          ))
      else (record site { db = db1 }, ok (json (failure (text "You are not admin"))))
]

-- GET /all_questions
unfoldable pub get_all_questions : World → Request → Site → Outcome
unfolding all_questions
get_all_questions w req site =
    let (db1, html, done) = all_questions w.env w.expand site.db in
    (record site { db = db1 }, ok (page html))

-- GET /question/(\d+)
unfoldable pub get_question : World → Request → Site → Outcome
unfolding question
get_question w req site =
    let (db1, html, done) = question w.env w.expand req.captured site.db in
    (record site { db = db1 }, ok (page html))
