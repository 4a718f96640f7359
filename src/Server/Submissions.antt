-- ===== src/Server/Submissions.antt =====
-- oj_server/oj_server.cc: the handlers on a user's progress and on judging.
use distributed_oj.Base.{ℕ, true, false, [], ◌∷◌, Option, none, some, Text, text, if◌then◌else◌}
use distributed_oj.Base.Result.{Result, ok, throws, undefined, ◌>>=◌}
use distributed_oj.Comm.Int.{ℤ, pos, stoi}
use distributed_oj.Json.{string, int, bool}
use distributed_oj.Model.{UserProgress, no_progress, no_user, Db}
use distributed_oj.Balance.{LoadBalance}
use distributed_oj.Balance.Judge.{Round}
use distributed_oj.Control.Users.{get_user_info}
use distributed_oj.Control.Questions.{judge}
use distributed_oj.Control.Progress.{query_progress, set_completed, add_or_update_user_progress}
use distributed_oj.Server.{
  Request, json, result, Site, World, Outcome, find, user_of_session, success, failure,
}

-- `user->id`, which is indeterminate in a user that no row has filled
abbrev pub read_id : Option ℤ → Result ℤ
read_id none = undefined
read_id (some id) = ok id

-- A new record for a user and the question whose number the path has captured
unfoldable pub new_progress : Option ℤ → Text → Result UserProgress
new_progress id number = do
  user_id ← read_id id
  question_id ← stoi number
  ok (record no_progress { user_id = user_id; question_id = question_id })

-- What the handlers do with a new record once they have it
abbrev pub with_progress : Db → Result UserProgress → (UserProgress → Db) → Db × Result (Unit {0})
with_progress db (ok up) f = (f up, ok tt)
with_progress db (throws what) f = (db, throws what)
with_progress db undefined f = (db, undefined)

-- The block `if (GetUserInfo(username, user)) { … }` of two handlers
unfoldable pub for_user :
    World → Text → Text → (UserProgress → Db → Db) → Db → Db × Result (Unit {0})
unfolding get_user_info new_progress
for_user w username number action db =
    let (db1, u, found) = get_user_info w.env username no_user db in
    if found
    then with_progress db1 (new_progress u.id number) (λ up. action up db1)
    else (db1, ok tt)

-- POST /setCompleted/(\d+), at the time `now`
unfoldable pub post_set_completed : World → ℤ → Request → Site → Outcome
unfolding find for_user set_completed
post_set_completed w now req site = elim (user_of_session req site) [
  | none ↦ (site, undefined)
  | some username ↦
      let (db1, r) =
        for_user w username req.captured (λ up db. (set_completed w.env now up db).0) site.db in
      (record site { db = db1 }, r >>= λ _. ok (json (success true)))
]

abbrev pub or_empty : Option Text → Text
or_empty none = []
or_empty (some s) = s

-- GET /getUserProgress/(\d+)
unfoldable pub get_get_user_progress : World → Request → Site → Outcome
unfolding find get_user_info new_progress query_progress
get_get_user_progress w req site =
    let username = or_empty (user_of_session req site) in
    let (db1, u, found) = get_user_info w.env username no_user site.db in
    if found
    then (elim (new_progress u.id req.captured) [
      | ok up ↦
          let (db2, up2, known) = query_progress w.env up.user_id up.question_id up db1 in
          (
            record site { db = db2 },
            ok (
                json (
                  if known
                  then (text "success", bool true)
                    ∷ (text "completed", bool up2.is_completed)
                    ∷ (text "submit_times", int up2.attempt_count)
                    ∷ []
                  else (text "success", bool false)
                    ∷ (text "error", string (text "Failed to get user progress"))
                    ∷ (text "completed", bool false)
                    ∷ (text "submit_times", int (pos 0))
                    ∷ [])),
          )
      | throws what ↦ (record site { db = db1 }, throws what)
      | undefined ↦ (record site { db = db1 }, undefined)
    ])
    else (record site { db = db1 }, ok (json (failure (text "User not found"))))

-- The outcome of the loop, on fuel: `none` where the fuel has run out and the handler still waits.
abbrev pub finish_judge : Site → Result (Option (LoadBalance × Option Text)) → Option Outcome
finish_judge site (ok none) = none
finish_judge site (ok (some (lb, out))) =
    some (record site { balance = lb }, ok (result (or_empty out)))
finish_judge site (throws what) = some (site, throws what)
finish_judge site undefined = some (site, undefined)

-- The judging half of the handler; what has been thrown before leaves it.
abbrev pub then_judge :
    World → (ℕ → Round) → ℕ → Request → Site → Result (Unit {0}) → Option Outcome
then_judge w net fuel req site (ok done) =
    let (db2, r) = judge w.json_cpp w.env net fuel req.captured req.body site.db site.balance in
    finish_judge (record site { db = db2 }) r
then_judge w net fuel req site (throws what) = some (site, throws what)
then_judge w net fuel req site undefined = some (site, undefined)

-- POST /judge/(\d+)
unfoldable pub post_judge : World → (ℕ → Round) → ℕ → Request → Site → Option Outcome
unfolding find for_user add_or_update_user_progress judge
post_judge w net fuel req site = elim (user_of_session req site) [
  | none ↦ some (site, undefined)
  | some username ↦
      let (db1, r) =
        for_user w username req.captured (λ up db. (add_or_update_user_progress w.env up db).0)
          site.db in
      then_judge w net fuel req (record site { db = db1 }) r
]
