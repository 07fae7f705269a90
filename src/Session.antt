-- ===== src/Session.antt =====
-- internal/session/session.go: what the request context carries.
use shorty.Base.{Str, str, Option, none, some}
use shorty.Errors.{Result, ok, err, message}
use shorty.Model.{User}

pub record Context : Type 0 where
  pub user : Option User
  pub req_id : Option Str

abbrev pub set_user_context : Context → User → Context
set_user_context c u = record c { user = some u }

abbrev get_user_from_context : Context → Option User
get_user_from_context c = c.user

abbrev pub set_request_id : Context → Str → Context
set_request_id c id = record c { req_id = some id }

abbrev pub get_request_id : Context → Option Str
get_request_id c = c.req_id

user_and_req_id : Option User → Option Str → Result (User × Str)
user_and_req_id none id = err (message (str "user was not provided in context"))
user_and_req_id (some u) none = err (message (str "request id was not provided in context"))
user_and_req_id (some u) (some id) = ok (u, id)

unfoldable pub get_user_and_req_id : Context → Result (User × Str)
unfolding user_and_req_id
get_user_and_req_id c = user_and_req_id c.user c.req_id
