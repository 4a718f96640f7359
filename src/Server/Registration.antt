-- ===== src/Server/Registration.antt =====
-- oj_server/oj_server.cc: /register, and a /login of the same name behind it.
use distributed_oj.Base.{
  ℕ, ◌≡◌, refl, ap, true, false, List, [], ◌∷◌, ◌++◌, Text, text, text_eq, if◌then◌else◌,
  Bool-cases, inl, inr,
}
use distributed_oj.Base.Result.{ok}
use distributed_oj.Comm.Hex.{generate_hex, generate_session_id, generate_salted_md5}
use distributed_oj.Model.{Row, Db, rows, is_failed, User, user_of, update_mysql, query_rows}
use distributed_oj.Model.Users.{
  add_user_sql, add_user, query_user_sql, query_user, query_mysql, user_of_row,
}
use distributed_oj.Control.Users.{register_user, login_user}
use distributed_oj.Server.{Request, json, Site, World, Outcome, assign, success}
use distributed_oj.Server.Accounts.{post_register, post_login}
use distributed_oj.Server.Sessions.{given}

-- The salted digest of a password
abbrev pub digest : World → Text → Text → Text
digest w salt password = generate_salted_md5 w.md5 password salt

-- The user that /register makes of a form
abbrev pub registered : World → List ℕ → Request → User
registered w random req =
    let salt = generate_hex random in
    user_of (given req (text "username")) (digest w salt (given req (text "password"))) salt

-- The database takes the user in, and answers the next query of the name with a row that holds the
-- digest and the salt.
pub record Keeps (w : World) (u : User) (db : Db) : Type 0 where
  pub reached : w.env.connects db ≡ true
  pub taken : is_failed (w.env.answers db (add_user_sql u)) ≡ false
  pub reached_again : w.env.connects (db ++ (add_user_sql u ∷ [])) ≡ true
  pub row : Row
  pub more : List Row
  pub found :
      w.env.answers (db ++ (add_user_sql u ∷ [])) (query_user_sql u.name) ≡ rows (row ∷ more)
  pub password : row 2 ≡ u.password
  pub salt : row 3 ≡ u.salt

module _ (w : World) (random : List ℕ) (req : Request) (site : Site) where
  abbrev new_user : User
  new_user = registered w random req

  post_register-Keeps :
      Keeps w new_user site.db
      → post_register w random req site
        ≡ (record site { db = site.db ++ (add_user_sql new_user ∷ []) }, ok (json (success true)))
  unfolding post_register register_user add_user update_mysql
  post_register-Keeps k = rw (k.reached, k.taken) refl

  login_user-Keeps :
      (k : Keeps w new_user site.db) (password : Text)
      → login_user w.env w.md5 new_user.name password (site.db ++ (add_user_sql new_user ∷ [])) ≡ (
        (site.db ++ (add_user_sql new_user ∷ [])) ++ (query_user_sql new_user.name ∷ []),
        text_eq new_user.password (digest w new_user.salt password),
      )
  unfolding login_user query_user query_mysql query_rows user_of_row
  login_user-Keeps k password = rw (k.reached_again, k.found, k.password, k.salt) refl

-- Where the database takes a new user in and keeps the digest and the salt, /register reports a
-- success, and a /login of the same name stores a session exactly if the password that it gives has
-- the digest, under the stored salt, of the one that was registered.
pub post_login-post_register :
    (w : World) (random draws : List ℕ) (req login : Request) (site : Site)
    → Keeps w (registered w random req) site.db
    → given login (text "username") ≡ given req (text "username")
    → let u = registered w random req in
      let site1 = (post_register w random req site).0 in
      ((post_register w random req site).1 ≡ ok (json (success true)))
      × ((post_login w draws login site1).0.sessions ≡ (
          if text_eq u.password (digest w u.salt (given login (text "password")))
          then assign (generate_session_id draws) u.name site.sessions
          else site.sessions))
unfolding post_login
post_login-post_register w random draws req login site k name =
    let u = registered w random req in
    let password = given login (text "password") in
    let step = post_register-Keeps w random req site k in
    (
      ap (λ (o : Outcome). o.1) step,
      rw (step, name, login_user-Keeps w random req site k password)
          (elim (Bool-cases (text_eq u.password (digest w u.salt password))) [
            | inl same ↦ rw same refl
            | inr other ↦ rw other refl
          ]),
    )
