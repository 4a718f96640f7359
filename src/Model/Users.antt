-- ===== src/Model/Users.antt =====
-- oj_server/oj_model2.hpp: class UserModel, on the table `user`.
use distributed_oj.Base.{Bool, true, false, List, [], ◌∷◌, Option, none, some, Text, text, map}
use distributed_oj.Comm.Int.{ℤ, atoi, to_string}
use distributed_oj.Model.{User, Row, Db, Backend, join, update_mysql, query_rows}

unfoldable pub user_of_row : Row → User
user_of_row row = record {
  id = some (atoi (row 0));
  name = row 1;
  password = row 2;
  salt = row 3;
  is_admin = atoi (row 4);
}

-- `QueryMysql`: the first row overwrites the user; a result without rows leaves it and is a success
-- too. The flag is what it returns.
abbrev pub fill_user : User → Option (List Row) → User × Bool
fill_user u none = (u, false)
fill_user u (some []) = (u, true)
fill_user u (some (row ∷ more)) = (user_of_row row, true)

unfoldable pub query_mysql : Backend → Text → User → Db → Db × User × Bool
unfolding query_rows user_of_row
query_mysql env sql u db =
    let (db', found) = query_rows env sql db in
    let (u', fine) = fill_user u found in (db', u', fine)

-- `QueryMysql2`
unfoldable pub query_mysql2 : Backend → Text → Db → Db × Option (List User)
unfolding query_rows user_of_row
query_mysql2 env sql db =
    let (db', found) = query_rows env sql db in
    (db', elim found [ none ↦ none | some rs ↦ some (map user_of_row rs) ])

abbrev pub add_user_sql : User → Text
add_user_sql u = join (
    text "INSERT INTO user (username, password, salt) VALUES ('"
    ∷ u.name
    ∷ text "', '"
    ∷ u.password
    ∷ text "', '"
    ∷ u.salt
    ∷ text "')"
    ∷ [])

unfoldable pub add_user : Backend → User → Db → Db × Bool
unfolding update_mysql
add_user env u db = update_mysql env (add_user_sql u) db

abbrev pub insert_user_by_admin_sql : User → Text
insert_user_by_admin_sql u = join (
    text "INSERT INTO user (username, password, salt, isAdmin) VALUES ('"
    ∷ u.name
    ∷ text "', '"
    ∷ u.password
    ∷ text "', '"
    ∷ u.salt
    ∷ text "', "
    ∷ to_string u.is_admin
    ∷ text ")"
    ∷ [])

unfoldable pub insert_user_by_admin : Backend → User → Db → Db × Bool
unfolding update_mysql
insert_user_by_admin env u db = update_mysql env (insert_user_by_admin_sql u) db

abbrev pub query_user_sql : Text → Text
query_user_sql username =
    join (text "SELECT * FROM user WHERE username = '" ∷ username ∷ text "'" ∷ [])

unfoldable pub query_user : Backend → Text → User → Db → Db × User × Bool
unfolding query_mysql
query_user env username u db = query_mysql env (query_user_sql username) u db

abbrev pub query_user_by_id_sql : Text → Text
query_user_by_id_sql user_id =
    join (text "SELECT * FROM user WHERE userid = '" ∷ user_id ∷ text "'" ∷ [])

unfoldable pub query_user_by_id : Backend → Text → User → Db → Db × User × Bool
unfolding query_mysql
query_user_by_id env user_id u db = query_mysql env (query_user_by_id_sql user_id) u db

abbrev pub update_user_sql : User → Text
update_user_sql u = join (
    text "UPDATE user SET password='"
    ∷ u.password
    ∷ text "', salt='"
    ∷ u.salt
    ∷ text "' WHERE username='"
    ∷ u.name
    ∷ text "'"
    ∷ [])

unfoldable pub update_user : Backend → User → Db → Db × Bool
unfolding update_mysql
update_user env u db = update_mysql env (update_user_sql u) db

-- `UpdateUserById` of a user whose id is given
abbrev pub update_user_by_id_sql : ℤ → User → Text
update_user_by_id_sql id u = join (
    text "UPDATE user SET username='"
    ∷ u.name
    ∷ text "', password='"
    ∷ u.password
    ∷ text "', salt='"
    ∷ u.salt
    ∷ text "', isAdmin="
    ∷ to_string u.is_admin
    ∷ text " WHERE userid='"
    ∷ to_string id
    ∷ text "'"
    ∷ [])

unfoldable pub update_user_by_id : Backend → ℤ → User → Db → Db × Bool
unfolding update_mysql
update_user_by_id env id u db = update_mysql env (update_user_by_id_sql id u) db

abbrev pub delete_user_sql : Text → Text
delete_user_sql username =
    join (text "DELETE FROM user WHERE username = '" ∷ username ∷ text "'" ∷ [])

unfoldable pub delete_user : Backend → Text → Db → Db × Bool
unfolding update_mysql
delete_user env username db = update_mysql env (delete_user_sql username) db

abbrev pub delete_user_by_id_sql : Text → Text
delete_user_by_id_sql user_id =
    join (text "DELETE FROM user WHERE userid = '" ∷ user_id ∷ text "'" ∷ [])

unfoldable pub delete_user_by_id : Backend → Text → Db → Db × Bool
unfolding update_mysql
delete_user_by_id env user_id db = update_mysql env (delete_user_by_id_sql user_id) db

unfoldable pub get_all_users : Backend → Db → Db × Option (List User)
unfolding query_mysql2
get_all_users env db = query_mysql2 env (text "SELECT * FROM user ORDER BY CreationTime DESC") db
