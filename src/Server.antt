-- ===== src/Server.antt =====
-- oj_server/oj_server.cc: the sessions, and the handlers of the HTTP server.
pub mod Accounts
pub mod Questions
pub mod Submissions
pub mod Sessions
pub mod Guards
pub mod Verdicts
pub mod Requests
pub mod Pages
pub mod Threads
pub mod Registration
mod Tests
use distributed_oj.Base.{
  ℕ, Bool, true, false, List, [], ◌∷◌, ◌++◌, Option, none, some, Text, text, text_eq, if◌then◌else◌,
}
use distributed_oj.Base.Result.{Result, ok, throws, undefined, ◌>>=◌}
use distributed_oj.Comm.Cookie.{get_cookie_value}
use distributed_oj.Comm.Int.{ℤ}
use distributed_oj.Json.{JsonCpp, Object, Field, string, bool}
use distributed_oj.Model.{Db, Backend}
use distributed_oj.Balance.{LoadBalance}
use distributed_oj.View.{Expand}
use distributed_oj.Control.Users.{Md5}

-- `std::map<std::string, std::string> sessions`: session ids with user names
abbrev pub Sessions : Type 0
Sessions = List (Text × Text)

unfoldable pub find : Text → Sessions → Option Text
find session_id [] = none
find session_id ((id, username) ∷ rest) =
    if text_eq id session_id then some username else find session_id rest

-- `sessions[session_id] = username`
unfoldable pub assign : Text → Text → Sessions → Sessions
assign session_id username [] = (session_id, username) ∷ []
assign session_id username ((id, old) ∷ rest) =
    if text_eq id session_id
    then (id, username) ∷ rest
    else (id, old) ∷ assign session_id username rest

-- `sessions.erase(it)`, for the entry that `find` finds
unfoldable pub erase : Text → Sessions → Sessions
erase session_id [] = []
erase session_id ((id, username) ∷ rest) =
    if text_eq id session_id then rest else (id, username) ∷ erase session_id rest

-- What a handler reads of a request: the `Cookie` header, the body, the form's parameters and
-- files, and the group that the path's pattern captures.
pub record Request : Type 0 where
  pub cookie : Text
  pub body : Text
  pub param : Text → Option Text
  pub file : Text → Text
  pub captured : Text

-- The content that a handler sets: an object in jsoncpp's styled form, with a `Set-Cookie` header
-- or without, a plain text, a page, or the answer of a compile server.
pub data Response : Type 0 where
  json : Object → Response
  json_with_cookie : Text → Object → Response
  plain : Text → Response
  page : Text → Response
  result : Text → Response

-- What the handlers of the process share.
pub record Site : Type 0 where
  pub db : Db
  pub sessions : Sessions
  pub balance : LoadBalance

-- What the server takes from elsewhere: jsoncpp, MySQL and the calendar, the digest, ctemplate.
pub record World : Type 1 where
  pub json_cpp : JsonCpp
  pub env : Backend
  pub md5 : Md5
  pub expand : Expand

-- A handler's outcome: the new state, and a response, an exception that leaves it, or undefined
-- behaviour.
abbrev pub Outcome : Type 0
Outcome = Site × Result Response

abbrev pub session_of : Request → Text
session_of req = get_cookie_value req.cookie (text "session_id")

-- The user name of the request's session
abbrev pub user_of_session : Request → Site → Option Text
user_of_session req site = find (session_of req) site.sessions

abbrev pub success : Bool → Object
success b = (text "success", bool b) ∷ []

abbrev pub failure : Text → Object
failure error = (text "success", bool false) ∷ (text "error", string error) ∷ []

-- `req.has_param(key) ? req.get_param_value(key) : …`
abbrev pub param_or : Request → Text → Text → Text
param_or req key default = elim (req.param key) [ none ↦ default | some value ↦ value ]
