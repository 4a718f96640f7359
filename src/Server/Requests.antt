-- ===== src/Server/Requests.antt =====
-- oj_server/oj_server.cc: any request to the server, as one of the handlers that main registers.
pub mod Keeping
pub mod KeepingTasks
pub mod History
mod Tests
use distributed_oj.Base.{ℕ, List, [], ◌∷◌, Option, none, some}
use distributed_oj.Base.Result.{ok, throws, undefined}
use distributed_oj.Comm.Int.{ℤ}
use distributed_oj.Balance.Judge.{Round}
use distributed_oj.Server.{Request, Site, World, Outcome}
use distributed_oj.Server.Accounts.{
  post_edit_user, delete_delete_user, post_add_user, get_get_user_info, post_register, post_login,
  get_check_login, post_logout, get_all_users, get_user,
}
use distributed_oj.Server.Questions.{
  post_update_question, post_add_question, delete_delete_question, get_all_questions, get_question,
}
use distributed_oj.Server.Submissions.{post_set_completed, get_get_user_progress, post_judge}

-- A handler with what it draws of random numbers, reads of the clock, and meets on the network
pub data Call : Type 0 where
  edit_user : List ℕ → Call
  delete_user : Call
  add_user : List ℕ → Call
  user_info : Call
  register : List ℕ → Call
  login : List ℕ → Call
  check_login : Call
  logout : Call
  update_question : Call
  add_question : Call
  delete_question : Call
  set_completed : ℤ → Call
  user_progress : Call
  all_users : Call
  all_questions : Call
  user : Call
  question : Call
  judge : (ℕ → Round) → ℕ → Call

-- The site in an outcome, and the old one where there is none yet
abbrev pub site_of : Site → Option Outcome → Site
site_of site none = site
site_of site (some outcome) = outcome.0

-- What a handler comes to; `none` where a judging still waits
unfoldable pub handle : World → Call → Request → Site → Option Outcome
handle w (edit_user random) req site = some (post_edit_user w random req site)
handle w delete_user req site = some (delete_delete_user w req site)
handle w (add_user random) req site = some (post_add_user w random req site)
handle w user_info req site = some (get_get_user_info w req site)
handle w (register random) req site = some (post_register w random req site)
handle w (login draws) req site = some (post_login w draws req site)
handle w check_login req site = some (get_check_login req site)
handle w logout req site = some (post_logout req site)
handle w update_question req site = some (post_update_question w req site)
handle w add_question req site = some (post_add_question w req site)
handle w delete_question req site = some (delete_delete_question w req site)
handle w (set_completed now) req site = some (post_set_completed w now req site)
handle w user_progress req site = some (get_get_user_progress w req site)
handle w all_users req site = some (get_all_users w req site)
handle w all_questions req site = some (get_all_questions w req site)
handle w user req site = some (get_user w req site)
handle w question req site = some (get_question w req site)
handle w (judge net fuel) req site = post_judge w net fuel req site

-- The site for the requests that follow: an exception is caught by httplib, which answers 500; but
-- behind undefined behaviour nothing is known.
abbrev pub left_by : Option Outcome → Option Site
left_by none = none
left_by (some (site, ok response)) = some site
left_by (some (site, throws what)) = some site
left_by (some (site, undefined)) = none

unfoldable pub serve : World → Call → Request → Site → Option Site
unfolding handle
serve w call req site = left_by (handle w call req site)

-- One request after another, if none of them is undefined or waits
unfoldable pub serve_all : World → List (Call × Request) → Site → Option Site
unfolding serve
serve_all w [] site = some site
serve_all w ((call, req) ∷ calls) site = elim (serve w call req site) [
  | none ↦ none
  | some site' ↦ serve_all w calls site'
]
