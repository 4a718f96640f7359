-- ===== src/Model/Listed/Lookup.antt =====
-- Which question a number finds after the list has been read.
use distributed_oj.Base.{
  ◌≡◌, refl, sym, ap, ◌∙◌, List, [], ◌∷◌, Option, none, some, Text, text, text_eq, text_eq_iff,
  arith, if◌then◌else◌,
}
use distributed_oj.Comm.Files.{Disk}
use distributed_oj.Model.{Question}
use distributed_oj.Model.Listed.{
  Listing, lookup, insert, read_question, insert_read, load_entries, get_listed_question,
}

abbrev pub or_else : Option Question → Option Question → Option Question
or_else (some q) other = some q
or_else none other = other

abbrev pub if_numbered : Text → Option Question → Option Question
if_numbered number none = none
if_numbered number (some q) = if text_eq q.number number then some q else none

-- The first line that makes a question of that number
abbrev pub first_listed : (Text → Text → List Text) → Disk → Text → List Text → Option Question
first_listed split disk number [] = none
first_listed split disk number (line ∷ lines) =
    or_else (if_numbered number (read_question disk (split line (text " "))))
      (first_listed split disk number lines)

lookup-insert :
    (number key : Text) (q : Question) (questions : Listing)
    → lookup number (insert key q questions)
      ≡ or_else (lookup number questions) (if text_eq key number then some q else none)
unfolding lookup insert
lookup-insert number key q [] = ground arith
lookup-insert number key q ((k, old) ∷ rest) = ground (
  arith,
  text_eq_iff k number,
  text_eq_iff k key,
  text_eq_iff key number,
  lookup-insert number key q rest,
)

or_else_assoc : (a b c : Option Question) → or_else (or_else a b) c ≡ or_else a (or_else b c)
or_else_assoc none b c = refl
or_else_assoc (some q) b c = refl

or_else-none : (a : Option Question) → or_else a none ≡ a
or_else-none none = refl
or_else-none (some q) = refl

lookup-insert_read :
    (number : Text) (o : Option Question) (questions : Listing)
    → lookup number (insert_read o questions)
      ≡ or_else (lookup number questions) (if_numbered number o)
lookup-insert_read number none questions = sym (or_else-none (lookup number questions))
lookup-insert_read number (some q) questions = lookup-insert number q.number q questions

-- After the list has been read, a number finds the question that it found before, if any, and
-- otherwise the question of the first line of five tokens with that number, however `split` cuts
-- the lines.
pub get_listed_question-load_entries :
    (split : Text → Text → List Text) (disk : Disk) (number : Text) (lines : List Text)
    (questions : Listing)
    → get_listed_question number (load_entries split disk lines questions)
      ≡ or_else (get_listed_question number questions) (first_listed split disk number lines)
unfolding get_listed_question load_entries
get_listed_question-load_entries split disk number [] questions =
    sym (or_else-none (lookup number questions))
get_listed_question-load_entries split disk number (line ∷ lines) questions =
    let read = read_question disk (split line (text " ")) in
    get_listed_question-load_entries split disk number lines (insert_read read questions)
    ∙ ap (λ o. or_else o (first_listed split disk number lines))
        (lookup-insert_read number read questions)
    ∙ or_else_assoc (lookup number questions) (if_numbered number read)
        (first_listed split disk number lines)
