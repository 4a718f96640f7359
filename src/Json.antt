-- ===== src/Json.antt =====
-- What the program uses of jsoncpp, which is not part of the repository: a parser, the access to a
-- member as text or number, and two writers. Objects that the program builds are lists of members.
use distributed_oj.Base.{Bool, List, Text}
use distributed_oj.Base.Result.{Result}
use distributed_oj.Comm.Int.{ℤ}

pub data Field : Type 0 where
  string : Text → Field
  int : ℤ → Field
  bool : Bool → Field

abbrev pub Object : Type 0
Object = List (Text × Field)

-- `parse` also fills the value where it fails. `get_string v key` is `v[key].asString()`, and of an
-- absent member the empty text; `get_int v key` is `v[key].asInt()`. Both throw on a member of
-- another kind.
pub record JsonCpp : Type 1 where
  pub Value : Type 0
  pub parse : Text → Bool × Value
  pub get_string : Value → Text → Result Text
  pub get_int : Value → Text → Result ℤ
  pub write : Object → Text
  pub write_fast : Object → Text
