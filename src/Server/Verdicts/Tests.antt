-- ===== src/Server/Verdicts/Tests.antt =====
-- A submission of the user whose session is "s", on a network of compile servers.
use distributed_oj.Base.{◌≡◌, refl, arith, [], ◌∷◌, ◌++◌, Option, none, some, Text, text}
use distributed_oj.Base.Result.{ok}
use distributed_oj.Comm.Int.{pos, stoi, skip_spaces, read_signed, atoi}
use distributed_oj.Comm.Cookie.{get_cookie_value}
use distributed_oj.Model.Questions
use distributed_oj.Model.Questions.{question_of_row, get_one_question}
use distributed_oj.Balance.{LoadBalance}
use distributed_oj.Control.Tests.{ann_row, flat_md5}
use distributed_oj.Control.Verdicts.{IsVerdict, submitted}
use distributed_oj.Control.Verdicts.Tests.{
  one_question, known_texts, one_machine, labs, served, served-AreServers,
}
use distributed_oj.CompileServer.Job.{read_submission}
use distributed_oj.Server.{Request, Site, World, result, find, user_of_session}
use distributed_oj.Server.Submissions.{or_empty, post_judge}
use distributed_oj.Server.Verdicts.{attempt_statements, post_judge-IsVerdict}

abbrev world : World
world = record { json_cpp = known_texts; env = one_question; md5 = flat_md5; expand = λ file d. [] }

abbrev submission : Request
submission = record {
  cookie = text "session_id=s";
  body = text "{}";
  param = λ key. none;
  file = λ key. [];
  captured = text "3";
}

abbrev site : Site
site = record { db = []; sessions = (text "s", text "ann") ∷ []; balance = one_machine }

ann_session : user_of_session submission site ≡ some (text "ann")
unfolding get_cookie_value find
ann_session = refl

post_judge-IsVerdict_example :
    let db3 = attempt_statements world (text "ann") ann_row (pos 3) (ann_row ∷ []) in
    (lb : LoadBalance) × (out : Option Text) × (post_judge world (λ t. served) 5 submission site
      ≡ some (
        record site { db = db3 ++ (Questions.select_question (text "3") ∷ []); balance = lb },
        ok (result (or_empty out)),
      ))
    × IsVerdict known_texts labs
        (submitted (question_of_row ann_row) (text "cat") (text "hi"))
        one_machine
        lb
        out
unfolding get_one_question read_submission stoi skip_spaces read_signed atoi
post_judge-IsVerdict_example =
    post_judge-IsVerdict world (λ d. refl) labs (λ t. served) 5 submission site (text "ann")
      (text "cat") (text "hi") ann_row [] (ann_row ∷ []) (pos 3) (question_of_row ann_row)
      ann_session refl refl refl refl refl refl refl refl served-AreServers
      (λ t ip port status body e. cc) (omega arith)
