-- ===== src/Server/Accounts.antt =====
-- oj_server/oj_server.cc: the handlers on users and sessions.
use distributed_oj.Base.{ℕ, true, false, List, [], ◌∷◌, ◌++◌, none, some, Text, text, if◌then◌else◌}
use distributed_oj.Base.Result.{Result, ok, throws, undefined, ◌>>=◌}
use distributed_oj.Comm.Hex.{generate_hex, generate_session_id, generate_salted_md5}
use distributed_oj.Json.{JsonCpp, string, int, bool}
use distributed_oj.Model.{User, no_user, user_of}
use distributed_oj.Control.Users.{
  admin_flag, edit_user, add_user, register_user, login_user, get_user_info, is_admin, delete_user,
  get_the_user, all_users,
}
use distributed_oj.Server.{
  Request, json, json_with_cookie, plain, page, Site, World, Outcome, find, assign, erase,
  session_of, user_of_session, success, failure, param_or,
}

-- A result that a conversion may throw, then the rest of a handler that has changed nothing yet.
unfoldable pub then_or_leave {ℓ} : {A : Type ℓ} → Site → Result A → (A → Outcome) → Outcome
then_or_leave site (ok a) f = f a
then_or_leave site (throws what) f = (site, throws what)
then_or_leave site undefined f = (site, undefined)

-- The four texts of an account's form
pub record Form : Type 0 where
  pub number : Text
  pub username : Text
  pub password : Text
  pub role : Text

unfoldable pub read_form : (j : JsonCpp) → j.Value → Result Form
read_form j v = do
  number ← j.get_string v (text "number")
  username ← j.get_string v (text "username")
  password ← j.get_string v (text "password")
  role ← j.get_string v (text "role")
  ok (record { number = number; username = username; password = password; role = role })

-- The form of a new account, which has no number
unfoldable pub read_new_form : (j : JsonCpp) → j.Value → Result Form
read_new_form j v = do
  username ← j.get_string v (text "username")
  password ← j.get_string v (text "password")
  role ← j.get_string v (text "role")
  ok (record { number = []; username = username; password = password; role = role })

-- The session must be there and its user an administrator before the rest is done.
unfoldable pub as_admin : World → Request → Site → (Site → Outcome) → Outcome
unfolding find is_admin
as_admin w req site action = elim (user_of_session req site) [
  | none ↦ (site, ok (json (failure (text "Invalid session"))))
  | some username ↦
      let (db1, admin) = is_admin w.env username site.db in
      let allowed = action (record site { db = db1 }) in
      if admin
      then allowed
      else (record site { db = db1 }, ok (json (failure (text "You are not admin"))))
]

-- POST /editUser
unfoldable pub post_edit_user : World → List ℕ → Request → Site → Outcome
post_edit_user w random req site =
    let (parsed, v) = w.json_cpp.parse req.body in
    if parsed
    then then_or_leave site (read_form w.json_cpp v) (λ form. as_admin w req site (λ site1.
      let (db2, done) =
        edit_user w.env w.md5 random form.number form.username form.password form.role site1.db in
      (record site1 { db = db2 }, ok (json (success done)))))
    else (site, ok (json (failure (text "Invalid JSON data"))))

-- DELETE /deleteUser/(\d+)
unfoldable pub delete_delete_user : World → Request → Site → Outcome
delete_delete_user w req site = as_admin w req site (λ site1.
    let (db2, done) = delete_user w.env req.captured site1.db in
    (record site1 { db = db2 }, ok (json (success done))))

-- POST /addUser
unfoldable pub post_add_user : World → List ℕ → Request → Site → Outcome
post_add_user w random req site =
    let (parsed, v) = w.json_cpp.parse req.body in
    if parsed
    then then_or_leave site (read_new_form w.json_cpp v) (λ form. as_admin w req site (λ site1.
      let salt = generate_hex random in
      let new_user : User = record no_user {
        name = form.username;
        password = generate_salted_md5 w.md5 form.password salt;
        salt = salt;
        is_admin = admin_flag form.role;
      } in
      let (db2, done) = add_user w.env new_user site1.db in
      (record site1 { db = db2 }, ok (json (success done)))))
    else (site, ok (json (failure (text "Invalid JSON format"))))

-- GET /getUserInfo
unfoldable pub get_get_user_info : World → Request → Site → Outcome
unfolding find get_user_info
get_get_user_info w req site = elim (user_of_session req site) [
  | none ↦ (site, ok (plain (text "Invalid session")))
  | some username ↦
      let (db1, u, found) = get_user_info w.env username no_user site.db in
      (
        record site { db = db1 },
        ok (
            if found
            then json (
                (text "success", bool true)
                ∷ (text "username", string u.name)
                ∷ (text "isAdmin", int u.is_admin)
                ∷ [])
            else plain (text "User not found")),
      )
]

-- POST /register
unfoldable pub post_register : World → List ℕ → Request → Site → Outcome
unfolding register_user
post_register w random req site =
    let username = param_or req (text "username") (req.file (text "username")) in
    let password = param_or req (text "password") (req.file (text "password")) in
    let salt = generate_hex random in
    let new_user = user_of username (generate_salted_md5 w.md5 password salt) salt in
    let (db1, done) = register_user w.env new_user site.db in
    (record site { db = db1 }, ok (json (success done)))

-- POST /login; `draws` are the random numbers of the session id.
unfoldable pub post_login : World → List ℕ → Request → Site → Outcome
post_login w draws req site =
    let username = param_or req (text "username") (req.file (text "username")) in
    let password = param_or req (text "password") (req.file (text "password")) in
    let (db1, right) = login_user w.env w.md5 username password site.db in
    let session_id = generate_session_id draws in
    if right
    then (
      record site { db = db1; sessions = assign session_id username site.sessions },
      ok (
          json_with_cookie (text "session_id=" ++ session_id) (
            (text "success", string (text "success"))
            ∷ (text "session_id", string session_id)
            ∷ [])),
    )
    else (record site { db = db1 }, ok (plain (text "Login Failed")))

-- GET /check_login
unfoldable pub get_check_login : Request → Site → Outcome
get_check_login req site = elim (user_of_session req site) [
  | none ↦ (site, ok (json (success false)))
  | some username ↦
      (site, ok (json ((text "success", bool true) ∷ (text "username", string username) ∷ [])))
]

-- POST /logout
unfoldable pub post_logout : Request → Site → Outcome
post_logout req site = elim (user_of_session req site) [
  | none ↦ (site, ok (json (success false)))
  | some username ↦
      (record site { sessions = erase (session_of req) site.sessions }, ok (json (success true)))
]

-- GET /all_users
unfoldable pub get_all_users : World → Request → Site → Outcome
unfolding all_users
get_all_users w req site =
    let (db1, html, done) = all_users w.env w.expand site.db in
    (record site { db = db1 }, ok (page html))

-- GET /user/(\d+)
unfoldable pub get_user : World → Request → Site → Outcome
unfolding get_the_user
get_user w req site =
    let (db1, r) = get_the_user w.env w.expand req.captured site.db in
    (record site { db = db1 }, r >>= λ (html, done). ok (page html))
