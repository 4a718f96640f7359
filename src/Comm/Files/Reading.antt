-- ===== src/Comm/Files/Reading.antt =====
-- What ReadFile makes of a file's content.
use distributed_oj.Base.{
  ℕ, ◌≡◌, refl, ap, ◌∙◌, true, inl, inr, List, [], ◌∷◌, Text, arith, ◌==◌, if◌then◌else◌,
  Bool-cases,
}
use distributed_oj.Comm.Cookie.{pieces, push_front}
use distributed_oj.Comm.Files.{join_lines, read_lines}

-- A text that does not end in a line end gets one.
abbrev pub close_line : Text → Text
close_line [] = []
close_line (c ∷ []) = if c == b'\n' then c ∷ [] else c ∷ b'\n' ∷ []
close_line (c ∷ d ∷ s) = c ∷ close_line (d ∷ s)

abbrev NotEmpty : List Text → Type 0
NotEmpty [] = ⊥
NotEmpty (p ∷ ps) = Unit

push_front-NotEmpty : (c : ℕ) (ps : List Text) → NotEmpty (push_front c ps)
push_front-NotEmpty c [] = tt
push_front-NotEmpty c (p ∷ ps) = tt

pieces-NotEmpty : (c : ℕ) (s : Text) → NotEmpty (pieces b'\n' (c ∷ s))
unfolding pieces
pieces-NotEmpty c s = elim (Bool-cases (c == b'\n')) [
  | inl e ↦ rw e tt
  | inr e ↦ rw e (push_front-NotEmpty c (pieces b'\n' s))
]

join_lines-push_front :
    (c : ℕ) (ps : List Text)
    → NotEmpty ps
    → join_lines true (push_front c ps) ≡ c ∷ join_lines true ps
join_lines-push_front c [] h = absurd h
join_lines-push_front c (p ∷ ps) h = refl

join_lines-pieces :
    (c : ℕ) (s : Text)
    → NotEmpty (pieces b'\n' s)
    → join_lines true (pieces b'\n' (c ∷ s)) ≡ c ∷ join_lines true (pieces b'\n' s)
unfolding pieces
join_lines-pieces c s h = elim (Bool-cases (c == b'\n')) [
  | inl e ↦ rw e (ground arith)
  | inr e ↦ rw e (join_lines-push_front c (pieces b'\n' s) h)
]

-- With line ends kept, `ReadFile` gives back the content, with one more line end if the last line
-- had none.
pub read_lines-close_line : (content : Text) → read_lines content true ≡ close_line content
unfolding read_lines
read_lines-close_line [] = refl
read_lines-close_line (c ∷ []) = ground arith
read_lines-close_line (c ∷ d ∷ s) =
    join_lines-pieces c (d ∷ s) (pieces-NotEmpty d s) ∙ ap (◌∷◌ c) (read_lines-close_line (d ∷ s))
