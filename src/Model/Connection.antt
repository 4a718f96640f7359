-- ===== src/Model/Connection.antt =====
-- oj_server/oj_model2.hpp: MySQLConnection, and the bodies of the three models that use it, as the
-- calls that they make of the MySQL client library. What a call comes to is told by a `Driver`;
-- where a connection fails, the constructor is followed to the throw, reading of the error
-- included.
pub mod Protocol
mod Tests
use distributed_oj.Base.{
  ℕ, zero, suc, Bool, true, false, List, [], ◌∷◌, ◌++◌, Option, none, some, Text, ltb,
  if◌then◌else◌,
}

pub data ClientCall : Type 0 where
  init : Bool → ClientCall
  options : ClientCall
  real_connect : Bool → ClientCall
  set_character_set : ClientCall
  error : ClientCall
  close : ClientCall
  query : Text → Bool → ClientCall
  store_result : Bool → ClientCall
  num_rows : ℕ → ClientCall
  fetch_row : ClientCall
  free_result : ClientCall

-- What the library and the server do: `mysql_init` gives a handle, the connection is made, the
-- statement succeeds, and `mysql_store_result` gives a result of so many rows.
pub record Driver : Type 0 where
  pub inits : Bool
  pub connects : Bool
  pub succeeds : Bool
  pub stored : Option ℕ

-- `MySQLConnection()`: the calls, and whether it returns; it throws otherwise.
unfoldable pub connection : Bool → Bool → List ClientCall × Bool
connection false connects = (init false ∷ [], false)
connection true false = (init true ∷ options ∷ real_connect false ∷ close ∷ error ∷ [], false)
connection true true = (init true ∷ options ∷ real_connect true ∷ set_character_set ∷ [], true)

-- The `try` block: the constructor, a body, and the destructor, with what the function returns; an
-- exception of the constructor is caught.
abbrev pub try_with : List ClientCall × Bool → List ClientCall × Bool → List ClientCall × Bool
try_with (made, true) (calls, fine) = (made ++ (calls ++ (close ∷ [])), fine)
try_with (made, false) (calls, fine) = (made, false)

-- The body of `UpdateMysql`, and of inserting, updating and deleting a question
unfoldable pub update_body : Text → Bool → List ClientCall × Bool
update_body sql true = (query sql true ∷ [], true)
update_body sql false = (query sql false ∷ error ∷ [], false)

abbrev pub fetches : ℕ → List ClientCall
fetches zero = []
fetches (suc n) = fetch_row ∷ fetches n

-- The body of `QueryMysql` and `QueryMysql2`, by how many of the rows they fetch
unfoldable pub query_body : (ℕ → ℕ) → Text → Bool → Option ℕ → List ClientCall × Bool
query_body fetched sql false stored = (query sql false ∷ error ∷ [], false)
query_body fetched sql true none = (query sql true ∷ store_result false ∷ error ∷ [], false)
query_body fetched sql true (some n) = (
  query sql true ∷ store_result true ∷ num_rows n ∷ (fetches (fetched n) ++ (free_result ∷ [])),
  true,
)

-- `if (rows > 0)`
abbrev pub at_most_one : ℕ → ℕ
at_most_one n = if ltb 0 n then 1 else 0

-- The three kinds of functions: `UpdateMysql`, `QueryMysql` of one user or record, and those that
-- fetch all rows
pub data Task : Type 0 where
  updating : Task
  querying_one : Task
  querying_all : Task

abbrev pub task_body : Task → Text → Driver → List ClientCall × Bool
task_body updating sql d = update_body sql d.succeeds
task_body querying_one sql d = query_body at_most_one sql d.succeeds d.stored
task_body querying_all sql d = query_body (λ n. n) sql d.succeeds d.stored

unfoldable pub perform : Task → Text → Driver → List ClientCall × Bool
unfolding connection update_body query_body
perform task sql d = try_with (connection d.inits d.connects) (task_body task sql d)

-- Statements one after another, each with what becomes of it
unfoldable pub perform_all : List (Task × Text × Driver) → List ClientCall
unfolding perform
perform_all [] = []
perform_all ((task, sql, d) ∷ rest) = (perform task sql d).0 ++ perform_all rest
