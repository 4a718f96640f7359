-- ===== src/Comm/Files/Tests.antt =====
-- Concrete files and names.
use distributed_oj.Base.{◌≡◌, refl, true, [], ◌∷◌, text, arith}
use distributed_oj.Comm.Files.{uniq_names, read_lines}
use distributed_oj.Comm.Files.Reading.{read_lines-close_line}
use distributed_oj.Comm.Files.Names.{Distinct, uniq_names-Distinct}
use distributed_oj.Comm.Int.{to_string_nat}
use distributed_oj.Comm.Files.Race.{run_accesses, bumps, reads, run_accesses_race}

names_test : uniq_names (1700 ∷ 1700 ∷ []) 4294967295 ≡ text "1700_0" ∷ text "1700_1" ∷ []
unfolding uniq_names to_string_nat
names_test = refl

read_lines-close_line_test : read_lines (text "a\n\nb") true ≡ text "a\n\nb\n"
read_lines-close_line_test = read_lines-close_line (text "a\n\nb")

uniq_names-Distinct_example : Distinct (uniq_names (5 ∷ 5 ∷ 4 ∷ []) 4294967294)
uniq_names-Distinct_example = uniq_names-Distinct (5 ∷ 5 ∷ 4 ∷ []) 4294967294 (omega arith)

run_accesses_race_test :
    run_accesses (bumps ∷ bumps ∷ reads 9 ∷ reads 9 ∷ []) 0 ≡ text "9_2" ∷ text "9_2" ∷ []
unfolding to_string_nat
run_accesses_race_test = run_accesses_race 9 0
