-- ===== src/Control/Login.antt =====
-- oj_server/oj_control.hpp, UserControl::LoginUser: whom it lets in.
use distributed_oj.Base.{
  ◌≡◌, refl, true, false, ◌&&◌, [], ◌∷◌, ◌++◌, Text, text_eq, text_eq_iff, arith, inl, inr,
  Bool-cases, length,
}
use distributed_oj.Comm.Hex.{generate_salted_md5, generate_md5, generate_hex}
use distributed_oj.Comm.Hex.Shape.{length-generate_hex}
use distributed_oj.Model.{
  Answer, failed, no_result, rows, Db, Backend, rows_of, query_rows, no_user,
}
use distributed_oj.Model.Users.{fill_user, query_user, query_mysql, query_user_sql, user_of_row}
use distributed_oj.Control.Users.{Md5, login_user}

false-ne-true : false ≡ true → ⊥
false-ne-true h = cc

-- The first row that the query of the user has brought: its password is the digest of the given
-- password and of its own salt.
abbrev pub IsProof : Md5 → Text → Answer → Type 0
IsProof md5 password failed = ⊥
IsProof md5 password no_result = ⊥
IsProof md5 password (rows []) = ⊥
IsProof md5 password (rows (row ∷ more)) = row 2 ≡ generate_salted_md5 md5 password (row 3)

salted-ne-nil :
    (md5 : Md5) (password salt : Text)
    → ((s : Text) → length (md5 s) ≡ 16)
    → text_eq [] (generate_salted_md5 md5 password salt) ≡ false
unfolding generate_salted_md5 generate_md5
salted-ne-nil md5 password salt long =
    nonempty (generate_hex (md5 (password ++ salt)))
      (omega (arith, length-generate_hex (md5 (password ++ salt)), long (password ++ salt)))
  where
    nonempty : (s : Text) → length s ≡ 32 → text_eq [] s ≡ false
    nonempty [] h = cc
    nonempty (c ∷ s) h = refl

fill_user-IsProof :
    (md5 : Md5) (password : Text)
    → ((s : Text) → length (md5 s) ≡ 16)
    → (answer : Answer)
    → let r = fill_user no_user (rows_of answer) in
      r.1 && text_eq r.0.password (generate_salted_md5 md5 password r.0.salt) ≡ true
      → IsProof md5 password answer
unfolding user_of_row
fill_user-IsProof md5 password long failed h = cc
fill_user-IsProof md5 password long no_result h = cc
fill_user-IsProof md5 password long (rows []) h = let e = salted-ne-nil md5 password [] long in cc
fill_user-IsProof md5 password long (rows (row ∷ more)) h = (text_eq_iff _ _).0 h

-- Where the digest has sixteen bytes, a user is let in only if the database can be reached and its
-- answer to the query of the name starts with a row whose password is the digest of the given
-- password and of the row's salt. So an unknown name is not let in, though the query then succeeds.
pub login_user-IsProof :
    (env : Backend) (md5 : Md5) (name password : Text) (db : Db)
    → ((s : Text) → length (md5 s) ≡ 16)
    → (login_user env md5 name password db).1 ≡ true
    → (env.connects db ≡ true) × IsProof md5 password (env.answers db (query_user_sql name))
unfolding login_user query_user query_mysql query_rows
login_user-IsProof env md5 name password db long h = elim (Bool-cases (env.connects db)) [
  | inl up ↦
      (up, fill_user-IsProof md5 password long (env.answers db (query_user_sql name)) (rw up at h))
  | inr down ↦ absurd (false-ne-true (rw down at h))
]
