-- ===== src/Server/Requests/Tests.antt =====
-- A login by ann, a look at the questions, and a logout by the session that ann has had before.
use distributed_oj.Base.{◌≡◌, refl, ℕ, List, [], ◌∷◌, none, some, text}
use distributed_oj.Comm.Cookie.{get_cookie_value}
use distributed_oj.Comm.Hex.{generate_session_id, generate_md5, generate_salted_md5}
use distributed_oj.Control.Users.{login_user}
use distributed_oj.Model.Users.{query_user}
use distributed_oj.Server.{Request, Site, find, assign}
use distributed_oj.Server.Accounts.{post_login, post_logout}
use distributed_oj.Server.Questions
use distributed_oj.Server.Tests.{small_world, ann_site, request}
use distributed_oj.Server.Requests.{Call, login, logout, all_questions, serve, serve_all}
use distributed_oj.Server.Requests.History.{find-serve_all}

abbrev draws : List ℕ
draws = 7 ∷ 61 ∷ []

abbrev calls : List (Call × Request)
calls =
    (login draws, request [])
    ∷ (all_questions, request [])
    ∷ (logout, request (text "session_id=A1"))
    ∷ []

-- What the three requests leave
abbrev left : Site
left = elim (serve_all small_world calls ann_site) [ none ↦ ann_site | some site ↦ site ]

calls-left : serve_all small_world calls ann_site ≡ some left
unfolding serve find get_cookie_value serve_all post_login login_user query_user generate_salted_md5
    generate_md5 Questions.get_all_questions post_logout assign generate_session_id
calls-left = refl

find-serve_all_example : find (text "A1") left.sessions ≡ none
unfolding find get_cookie_value serve post_login login_user query_user generate_salted_md5
    generate_md5 Questions.get_all_questions post_logout assign generate_session_id
find-serve_all_example =
    find-serve_all small_world calls ann_site left (text "A1") (refl, tt) calls-left
