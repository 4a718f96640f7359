-- ===== src/Server/Tests.antt =====
-- A site on which ann, who is no administrator, has logged in, and the theorems at it.
use distributed_oj.Base.{
  ◌≡◌, refl, inr, true, false, [], ◌∷◌, Option, some, Text, text, text_eq, if◌then◌else◌,
}
use distributed_oj.Base.Result.{ok}
use distributed_oj.Comm.Int.{pos, stoi, atoi, read_digits, skip_spaces, read_signed}
use distributed_oj.Comm.Hex.{generate_hex, generate_session_id, generate_salted_md5, generate_md5}
use distributed_oj.Comm.Cookie.{get_cookie_value}
use distributed_oj.Json.{JsonCpp}
use distributed_oj.Model.Questions.{update_question_sql}
use distributed_oj.Model.Users.{query_user}
use distributed_oj.Balance.{no_machines}
use distributed_oj.Control.Users.{login_user, is_admin}
use distributed_oj.Control.Tests.{flat_md5, small_db, ann_row}
use distributed_oj.Server.{user_of_session, Request, Site, World, json, success, find, assign}
use distributed_oj.Server.Accounts.{
  post_register, post_login, get_check_login, post_logout, post_edit_user, post_add_user,
  delete_delete_user,
}
use distributed_oj.Server.Questions
use distributed_oj.Server.Sessions.{
  given, sessions_others, IsMap, with_session, greeting, sessions-IsMap, get_check_login-post_login,
  get_check_login-post_logout,
}
use distributed_oj.Server.Registration.{Keeps, registered, digest, post_login-post_register}
use distributed_oj.Server.Guards.{
  IsUntouched, form_question, admins_only, post_update_question-open,
}

-- Its values are texts, and each member of a value is the value.
abbrev pub flat_json : JsonCpp
flat_json = record {
  Value = Text;
  parse = λ s. (true, s);
  get_string = λ v key. ok v;
  get_int = λ v key. ok (pos 0);
  write = λ o. [];
  write_fast = λ o. [];
}

abbrev pub small_world : World
small_world = record {
  json_cpp = flat_json;
  env = small_db;
  md5 = flat_md5;
  expand = λ path d. path;
}

abbrev param_of_ann : Text → Option Text
param_of_ann key =
    if text_eq key (text "username")
    then some (text "ann")
    else if text_eq key (text "number")
    then some (text "3")
    else some (text "1")

abbrev pub request : Text → Request
request cookie = record {
  cookie = cookie;
  body = text "{}";
  param = param_of_ann;
  file = λ key. [];
  captured = text "3";
}

abbrev pub ann_site : Site
ann_site = record { db = []; sessions = (text "A1", text "ann") ∷ []; balance = no_machines }

sessions-IsMap_test :
    IsMap (post_login small_world (7 ∷ 61 ∷ []) (request []) ann_site).0.sessions
    × IsMap (post_logout (request []) ann_site).0.sessions
unfolding find
sessions-IsMap_test = sessions-IsMap small_world (7 ∷ 61 ∷ []) (request []) ann_site (refl, tt)

get_check_login-post_login_example :
    let site = (post_login small_world (7 ∷ 61 ∷ []) (request []) ann_site).0 in
    get_check_login (with_session (generate_session_id (7 ∷ 61 ∷ [])) (request [])) site
    ≡ (site, ok (greeting (text "ann")))
unfolding login_user query_user generate_salted_md5 generate_md5
get_check_login-post_login_example =
    get_check_login-post_login small_world (7 ∷ 61 ∷ []) (request []) (request []) ann_site refl

get_check_login-post_logout_example :
    let site = (post_logout (request (text "session_id=A1")) ann_site).0 in
    get_check_login (request (text "session_id=A1")) site ≡ (site, ok (json (success false)))
unfolding find
get_check_login-post_logout_example =
    get_check_login-post_logout (request (text "session_id=A1")) ann_site (refl, tt)

admins_only_example :
    IsUntouched ann_site (post_edit_user small_world [] (request (text "session_id=A1")) ann_site).0
    × IsUntouched ann_site
        (post_add_user small_world [] (request (text "session_id=A1")) ann_site).0
    × IsUntouched ann_site
        (delete_delete_user small_world (request (text "session_id=A1")) ann_site).0
    × IsUntouched ann_site
        (Questions.delete_delete_question small_world (request (text "session_id=A1")) ann_site).0
unfolding find get_cookie_value is_admin query_user atoi read_digits
admins_only_example =
    admins_only small_world [] (request (text "session_id=A1")) ann_site
      (inr (text "ann", refl, refl))

post_update_question-open_example :
    (Questions.post_update_question small_world (request []) ann_site).0.db
    ≡ update_question_sql (form_question (request []) (pos 1) (pos 1)) ∷ []
unfolding find get_cookie_value stoi read_digits skip_spaces read_signed
post_update_question-open_example =
    post_update_question-open small_world (request []) ann_site (pos 1) (pos 1) refl refl refl refl

sessions_others_test :
    (user_of_session
        (request (text "session_id=A1"))
        (post_login small_world (7 ∷ 61 ∷ []) (request []) ann_site).0
      ≡ user_of_session (request (text "session_id=A1")) ann_site)
    × (user_of_session (request (text "session_id=A1")) (post_logout (request []) ann_site).0
        ≡ user_of_session (request (text "session_id=A1")) ann_site)
unfolding find get_cookie_value generate_session_id
sessions_others_test =
    sessions_others small_world (7 ∷ 61 ∷ []) (request []) (request (text "session_id=A1")) ann_site
      (refl, tt) (λ e. cc) (λ e. cc)

ann_kept : Keeps small_world (registered small_world (171 ∷ []) (request [])) []
unfolding generate_hex generate_salted_md5 generate_md5
ann_kept = record {
  reached = refl;
  taken = refl;
  reached_again = refl;
  row = ann_row;
  more = [];
  found = refl;
  password = refl;
  salt = refl;
}

abbrev empty_site : Site
empty_site = record ann_site { sessions = [] }

post_login-post_register_example :
    let u = registered small_world (171 ∷ []) (request []) in
    let site1 = (post_register small_world (171 ∷ []) (request []) empty_site).0 in
    ((post_register small_world (171 ∷ []) (request []) empty_site).1 ≡ ok (json (success true)))
    × ((post_login small_world (7 ∷ 61 ∷ []) (request []) site1).0.sessions ≡ (
        if text_eq u.password (digest small_world u.salt (given (request []) (text "password")))
        then assign (generate_session_id (7 ∷ 61 ∷ [])) u.name []
        else []))
post_login-post_register_example =
    post_login-post_register small_world (171 ∷ []) (7 ∷ 61 ∷ []) (request []) (request [])
      empty_site ann_kept refl
