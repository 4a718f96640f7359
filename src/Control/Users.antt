-- ===== src/Control/Users.antt =====
-- oj_server/oj_control.hpp: class UserControl.
use distributed_oj.Base.{
  ℕ, Bool, true, false, not, ◌&&◌, List, [], ◌++◌, none, some, Text, text, text_eq, if◌then◌else◌,
}
use distributed_oj.Base.Result.{Result, ok, undefined}
use distributed_oj.Comm.Int.{ℤ, pos, atoi, to_string, is_zero}
use distributed_oj.Comm.Hex.{generate_hex, generate_salted_md5}
use distributed_oj.Model.{User, no_user, Db, Backend}
use distributed_oj.Model.Users
use distributed_oj.Model.Progress
use distributed_oj.View.{Expand, generate_user_detail_page, user_all_html}

-- `isAdmin == "true"`, as an int
abbrev pub admin_flag : Text → ℤ
admin_flag role = if text_eq role (text "true") then pos 1 else pos 0

-- The digest of OpenSSL, as its sixteen bytes.
abbrev pub Md5 : Type 0
Md5 = Text → List ℕ

-- `EditUser`; the ten random bytes of the salt are an argument.
unfoldable pub edit_user : Backend → Md5 → List ℕ → Text → Text → Text → Text → Db → Db × Bool
edit_user env md5 random number username password role db =
    let salt = generate_hex random in
    let u : User = record {
      id = some (atoi number);
      name = username;
      password = generate_salted_md5 md5 password salt;
      salt = salt;
      is_admin = admin_flag role;
    } in
    Users.update_user_by_id env (atoi number) u db

-- `GetTheUser`: the page is empty where the user cannot be queried, and then too the result is
-- true. The id of a user that no row has filled is read, which is undefined.
unfoldable pub get_the_user : Backend → Expand → Text → Db → Db × Result (Text × Bool)
get_the_user env expand number db =
    let (db1, new_user, found) = Users.query_user_by_id env number no_user db in
    if found
    then (elim new_user.id [
      | none ↦ (db1, undefined)
      | some id ↦
          let (db2, progresses) = Progress.query_user_progress_by_user_id env (to_string id) db1 in
          elim progresses [
            | none ↦ (db2, ok (text "指定用户: " ++ (number ++ text " 不存在!"), false))
            | some all ↦ (db2, ok (generate_user_detail_page env expand new_user all, true))
          ]
    ])
    else (db1, ok ([], true))

unfoldable pub add_user : Backend → User → Db → Db × Bool
add_user env u db = Users.insert_user_by_admin env u db

unfoldable pub register_user : Backend → User → Db → Db × Bool
register_user env u db = Users.add_user env u db

-- `LoginUser`
unfoldable pub login_user : Backend → Md5 → Text → Text → Db → Db × Bool
login_user env md5 name password db =
    let (db', u, is_existed) = Users.query_user env name no_user db in
    (db', is_existed && text_eq u.password (generate_salted_md5 md5 password u.salt))

-- `GetUserInfo`, which fills the user that it is given
unfoldable pub get_user_info : Backend → Text → User → Db → Db × User × Bool
get_user_info env username u db = Users.query_user env username u db

-- `IsAdmin`
unfoldable pub is_admin : Backend → Text → Db → Db × Bool
unfolding get_user_info
is_admin env username db =
    let (db', u, found) = get_user_info env username no_user db in
    (db', found && not (is_zero u.is_admin))

-- `DeleteUser`
unfoldable pub delete_user : Backend → Text → Db → Db × Bool
delete_user env user_id db = Users.delete_user_by_id env user_id db

-- `AllUsers`
unfoldable pub all_users : Backend → Expand → Db → Db × Text × Bool
all_users env expand db =
    let (db', found) = Users.get_all_users env db in
    elim found [
      | none ↦ (db', text "获取用户失败", false)
      | some all ↦ (db', user_all_html expand all, true)
    ]
