-- ===== src/Control/Tests.antt =====
-- A database with one user and one record, and the theorems about the controllers at it.
use distributed_oj.Base.{
  zero, suc, ◌≡◌, refl, true, [], ◌∷◌, Text, text, text_eq, Perm, if◌then◌else◌,
}
use distributed_oj.Comm.Int.{pos, atoi, read_digits, to_string, to_string_nat}
use distributed_oj.Model.{Question, no_question, Row, Answer, rows, Db, Backend}
use distributed_oj.Model.Users.{query_user, query_user_sql}
use distributed_oj.Comm.Hex.{generate_salted_md5, generate_md5}
use distributed_oj.Model.Progress.{query_user_progress_sql}
use distributed_oj.Control.Users.{Md5, login_user}
use distributed_oj.Control.Login.{IsProof, login_user-IsProof}
use distributed_oj.Control.Progress.{set_completed, add_or_update_user_progress}
use distributed_oj.Control.Attempts.{
  fresh, completed_at, tried_again, written, set_completed-written, add_or_update-written,
}
use distributed_oj.Control.Questions.{sort}
use distributed_oj.Control.Sorting.{IsSorted, sort-IsSorted}

-- A digest that is always the same
abbrev pub flat_md5 : Md5
flat_md5 s = 0 ∷ 0 ∷ 0 ∷ 0 ∷ 0 ∷ 0 ∷ 0 ∷ 0 ∷ 0 ∷ 0 ∷ 0 ∷ 0 ∷ 0 ∷ 0 ∷ 0 ∷ 0 ∷ []

abbrev pub ann_row : Row
ann_row zero = text "7"
ann_row (suc zero) = text "ann"
ann_row (suc (suc zero)) = text "00000000000000000000000000000000"
ann_row (suc (suc (suc zero))) = text "ab"
ann_row _ = text "0"

abbrev pub ann_answers : Db → Text → Answer
ann_answers db sql =
    if text_eq sql (query_user_sql (text "ann"))
    then rows (ann_row ∷ [])
    else if text_eq sql (query_user_progress_sql (pos 7) (pos 3))
    then rows (ann_row ∷ [])
    else rows []

abbrev pub small_db : Backend
small_db = record {
  connects = λ db. true;
  answers = ann_answers;
  format_time = λ t. text "2024-01-01 00:00:00";
  parse_time = λ s. pos 0;
}

login_user-IsProof_example :
    (small_db.connects [] ≡ true)
    × IsProof flat_md5 (text "pw") (small_db.answers [] (query_user_sql (text "ann")))
unfolding login_user query_user generate_salted_md5 generate_md5
login_user-IsProof_example =
    login_user-IsProof small_db flat_md5 (text "ann") (text "pw") [] (λ s. refl) refl

set_completed-written_example :
    (set_completed small_db (pos 9) (fresh (pos 7) (pos 3)) []).0
    ≡ query_user_progress_sql (pos 7) (pos 3)
      ∷ written small_db (completed_at (pos 9)) (fresh (pos 7) (pos 3)) (ann_row ∷ [])
      ∷ []
unfolding atoi read_digits to_string to_string_nat
set_completed-written_example =
    set_completed-written small_db (pos 9) (pos 7) (pos 3) [] (ann_row ∷ []) (λ d. refl) refl refl

add_or_update-written_test :
    (add_or_update_user_progress small_db (fresh (pos 7) (pos 4)) []).0
    ≡ query_user_progress_sql (pos 7) (pos 4)
      ∷ written small_db tried_again (fresh (pos 7) (pos 4)) []
      ∷ []
unfolding to_string to_string_nat
add_or_update-written_test =
    add_or_update-written small_db (pos 7) (pos 4) [] [] (λ d. refl) refl tt

abbrev numbered : Text → Question
numbered number = record no_question { number = number }

sort_test :
    sort (numbered (text "10") ∷ numbered (text "9") ∷ [])
    ≡ numbered (text "9") ∷ numbered (text "10") ∷ []
unfolding sort atoi read_digits
sort_test = refl

sort-IsSorted_test :
    let qs = numbered (text "10") ∷ numbered (text "9") ∷ [] in
    Perm (sort qs) qs × IsSorted (sort qs)
sort-IsSorted_test = sort-IsSorted (numbered (text "10") ∷ numbered (text "9") ∷ [])
