-- ===== src/Control/Counting/Tests.antt =====
-- A table that tells how often it has been written to, and three submissions.
use distributed_oj.Base.{◌≡◌, refl, zero, suc, true, [], ◌∷◌, Text, text}
use distributed_oj.Comm.Int.{pos, atoi, read_digits}
use distributed_oj.Model.{Row, Answer, rows, Db, Backend}
use distributed_oj.Model.Progress.{progress_of_row, add_user_progress_sql}
use distributed_oj.Control.Counting.{
  counted, submit_times, IsRecord, select, updates, submit_times-counted,
}

-- The record of user 7 and question 3
abbrev record_of : Text → Row
record_of attempts zero = text "1"
record_of attempts (suc zero) = text "7"
record_of attempts (suc (suc zero)) = text "3"
record_of attempts (suc (suc (suc (suc (suc zero))))) = attempts
record_of attempts _ = text "0"

abbrev answer_after : Db → Text → Answer
answer_after [] sql = rows []
answer_after (a ∷ b ∷ []) sql = rows (record_of (text "0") ∷ [])
answer_after _ sql = rows (record_of (text "1") ∷ [])

abbrev table : Backend
table = record {
  connects = λ db. true;
  answers = answer_after;
  format_time = λ t. text "1970-01-01 00:00:00";
  parse_time = λ s. pos 0;
}

zero_stored : IsRecord table (pos 7) (pos 3) 0 (record_of (text "0"))
unfolding progress_of_row atoi read_digits
zero_stored = record { key = refl; content = refl }

one_stored : IsRecord table (pos 7) (pos 3) 1 (record_of (text "1"))
unfolding progress_of_row atoi read_digits
one_stored = record { key = refl; content = refl }

submit_times-counted_example :
    submit_times table (pos 7) (pos 3) 3 []
    ≡ select table (pos 7) (pos 3)
      ∷ add_user_progress_sql table (counted (pos 7) (pos 3) 0)
      ∷ updates table (pos 7) (pos 3) 2 0
submit_times-counted_example =
    submit_times-counted table (pos 7) (pos 3) (λ d. refl) 2 []
      (
        refl,
        ((record_of (text "0"), zero_stored, refl), ((record_of (text "1"), one_stored, refl), tt)),
      )
