-- ===== src/Server/Verdicts.antt =====
-- oj_server/oj_server.cc, the handler of /judge from the request to the answer: the session, the
-- record of attempts, the question, and the compile servers.
mod Tests
use distributed_oj.Base.{
  ℕ, ◌<◌, ◌≡◌, refl, sym, ◌∙◌, ap, true, List, [], ◌∷◌, ◌++◌, append_assoc, Option, none, some,
  Text, text, length,
}
use distributed_oj.Base.Result.{Result, ok, ◌>>=◌}
use distributed_oj.Comm.Int.{ℤ, stoi, atoi}
use distributed_oj.Model.{Question, no_user, Row, rows, Db, query_rows}
use distributed_oj.Model.Users.{query_user, query_user_sql, query_mysql, user_of_row}
use distributed_oj.Model.Progress.{query_user_progress_sql}
use distributed_oj.Model.Questions
use distributed_oj.Balance.{LoadBalance}
use distributed_oj.Balance.Judge.{Round}
use distributed_oj.Balance.Judge.Termination.{IsPolite}
use distributed_oj.CompileServer.Job.{read_submission}
use distributed_oj.Control.Users.{get_user_info}
use distributed_oj.Control.Progress.{add_or_update_user_progress}
use distributed_oj.Control.Attempts.{fresh, tried_again, written, HasKey, add_or_update-written}
use distributed_oj.Control.Questions.{judge}
use distributed_oj.Control.Judging.{posted}
use distributed_oj.Control.Verdicts.{Hosts, AreServers, IsVerdict, submitted, judge-IsVerdict}
use distributed_oj.Server.{Request, Site, World, result, user_of_session}
use distributed_oj.Server.Submissions.{
  new_progress, read_id, for_user, or_empty, then_judge, finish_judge, post_judge,
}

-- The statements of an attempt: the user, the record, and what becomes of the record
abbrev pub attempt_statements : World → Text → Row → ℤ → List Row → Db
attempt_statements w username row n rs =
    let user_id = atoi (row 0) in
    query_user_sql username
    ∷ query_user_progress_sql user_id n
    ∷ written w.env tried_again (fresh user_id n) rs
    ∷ []

module _ (w : World) (up : (d : Db) → w.env.connects d ≡ true) where
  get_user_info-row :
      (username : Text) (db : Db) (row : Row) (more : List Row)
      → w.env.answers db (query_user_sql username) ≡ rows (row ∷ more)
      → get_user_info w.env username no_user db
        ≡ (db ++ (query_user_sql username ∷ []), user_of_row row, true)
  unfolding get_user_info query_user query_mysql query_rows
  get_user_info-row username db row more e = rw (up db, e) refl

  for_user-attempt :
      (username number : Text) (db : Db) (row : Row) (more rs : List Row) (n : ℤ)
      → w.env.answers db (query_user_sql username) ≡ rows (row ∷ more)
      → stoi number ≡ ok n
      → w.env.answers
          (db ++ (query_user_sql username ∷ []))
          (query_user_progress_sql (atoi (row 0)) n)
        ≡ rows rs
      → HasKey rs
      → for_user w username number (λ p d. (add_or_update_user_progress w.env p d).0) db
        ≡ (db ++ attempt_statements w username row n rs, ok tt)
  unfolding for_user new_progress user_of_row
  for_user-attempt username number db row more rs n user num known key =
      rw (get_user_info-row username db row more user, num)
        (ap (λ d. (d, ok tt))
          (add_or_update-written w.env (atoi (row 0)) n (db ++ (query_user_sql username ∷ [])) rs up
              known key
            ∙ append_assoc db (query_user_sql username ∷ []) _))

  get_one_question-db :
      (number : Text) (db : Db)
      → (Questions.get_one_question w.env number db).0
        ≡ db ++ (Questions.select_question number ∷ [])
  unfolding Questions.get_one_question Questions.query_mysql query_rows
  get_one_question-db number db = rw (up db) refl

  judge-db :
      (net : ℕ → Round) (fuel : ℕ) (number body : Text) (db : Db) (balance : LoadBalance)
      → (judge w.json_cpp w.env net fuel number body db balance).0
        ≡ db ++ (Questions.select_question number ∷ [])
  unfolding judge
  judge-db net fuel number body db balance = get_one_question-db number db

  then_judge-some :
      (net : ℕ → Round) (fuel : ℕ) (req : Request) (site : Site) (lb : LoadBalance)
      (out : Option Text)
      → (judge w.json_cpp w.env net fuel req.captured req.body site.db site.balance).1
        ≡ ok (some (lb, out))
      → then_judge w net fuel req site (ok tt)
        ≡ some (
          record site {
            db = site.db ++ (Questions.select_question req.captured ∷ []);
            balance = lb;
          },
          ok (result (or_empty out)),
        )
  then_judge-some net fuel req site lb out e =
      ap
        (finish_judge (record site {
          db = (judge w.json_cpp w.env net fuel req.captured req.body site.db site.balance).0;
        }))
        e
      ∙ ap (λ d. some (record site { db = d; balance = lb }, ok (result (or_empty out))))
          (judge-db net fuel req.captured req.body site.db site.balance)

  post_judge-then :
      (net : ℕ → Round) (fuel : ℕ) (req : Request) (site : Site) (username : Text) (db : Db)
      → user_of_session req site ≡ some username
      → for_user w username req.captured (λ p d. (add_or_update_user_progress w.env p d).0) site.db
        ≡ (db, ok tt)
      → post_judge w net fuel req site ≡ then_judge w net fuel req (record site { db = db }) (ok tt)
  unfolding post_judge
  post_judge-then net fuel req site username db session attempt =
      rw (session, post_judge)
        (ap (λ r. then_judge w net fuel req (record site { db = r.0 }) r.1) attempt)

  -- While the database can be reached, for hosts at the addresses: a request of /judge whose
  -- session has a user with a row, with a number for a question that is stored, a body whose code
  -- and input are texts, no record of attempts or one with a key that is not 0, and a writer and
  -- parser of JSON that agree on the text posted; every response of status 200 to that text comes of
  -- the compile server on the host of its address, and there is none of another status; the system
  -- calls of these hosts succeed, their programs find and change no files, the file names that they
  -- take are free, and there are more rounds than machines online. It is answered with the verdict
  -- that the host of a machine online at first gives on the user's code followed by the question's
  -- tests, on the user's input, and under the question's limits, or with nothing where no machine
  -- is online any more. The sessions stay, and the database has seen the user, the record, what is
  -- written of it, and the question.
  pub post_judge-IsVerdict :
      (host_at : Hosts) (net : ℕ → Round) (fuel : ℕ) (req : Request) (site : Site)
      (username code input : Text) (row : Row) (more rs : List Row) (n : ℤ) (q : Question)
      → let db1 = site.db ++ (query_user_sql username ∷ []) in
        let db3 = site.db ++ attempt_statements w username row n rs in
        user_of_session req site ≡ some username
        → w.env.answers site.db (query_user_sql username) ≡ rows (row ∷ more)
        → stoi req.captured ≡ ok n
        → w.env.answers db1 (query_user_progress_sql (atoi (row 0)) n) ≡ rows rs
        → HasKey rs
        → (Questions.get_one_question w.env req.captured db3).1 ≡ some q
        → w.json_cpp.get_string (w.json_cpp.parse req.body).1 (text "code") ≡ ok code
        → w.json_cpp.get_string (w.json_cpp.parse req.body).1 (text "input") ≡ ok input
        → read_submission w.json_cpp (posted w.json_cpp q code input) ≡ ok (submitted q code input)
        → AreServers w.json_cpp host_at net (posted w.json_cpp q code input)
        → ((t : ℕ) → IsPolite (net t) (posted w.json_cpp q code input))
        → length site.balance.online < fuel
        → (lb : LoadBalance) × (out : Option Text) × (post_judge w net fuel req site
            ≡ some (
              record site {
                db = db3 ++ (Questions.select_question req.captured ∷ []);
                balance = lb;
              },
              ok (result (or_empty out)),
            ))
          × IsVerdict w.json_cpp host_at (submitted q code input) site.balance lb out
  post_judge-IsVerdict host_at net fuel req site username code input row more rs n q session user
        num known key found c i agree served polite long =
      let db3 = site.db ++ attempt_statements w username row n rs in
      let (lb, out, ends, verdict) =
        judge-IsVerdict w.json_cpp host_at w.env net fuel req.captured req.body code input db3
          site.balance q found c i agree served polite long in
      (
        lb,
        out,
        post_judge-then net fuel req site username db3 session
              (for_user-attempt username req.captured site.db row more rs n user num known key)
            ∙ then_judge-some net fuel req (record site { db = db3 }) lb out ends,
        verdict,
      )
