-- ===== src/Api.antt =====
-- app/api/app.py and app/api/models.py: the routes, the validation of their requests, and the
-- status codes of their answers.
pub mod Audited
use nobleport.Prelude.{
  ℕ, Bool, true, false, ◌&&◌, ◌||◌, Option, none, some, List, [], ◌∷◌, all, leb, length, ◌==◌,
  if◌then◌else◌,
}
use nobleport.Python.Text.{Text, codes, is_nonempty}
use nobleport.Python.Json.{Fields}
use nobleport.World.{
  Env, Exn, audit_error, failure, cancelled, World, Result, ok, raised, Exec, pure, ◌>>=◌,
}
use nobleport.Db.Connection.{fetch}
use nobleport.Db.Summary.{Gate, gate_latency_summary}
use nobleport.Agent.State.{KillResult, request_kill, ThreadStatus, get_thread_status}
use nobleport.Agent.Runtime.{Supervisor, InvokeResult, invoke}

-- the body of POST /agent/invoke, before its validation
pub record InvokeRequest : Type 0 where
  pub input : Text
  pub thread_id : Option Text
  pub metadata : Fields

-- the class `[A-Za-z0-9_\-:.]`
unfoldable pub is_id_char : ℕ → Bool
is_id_char c =
    (leb b'A' c && leb c b'Z')
    || (leb b'a' c && leb c b'z')
    || (leb b'0' c && leb c b'9')
    || c == b'_'
    || c == b'-'
    || c == b':'
    || c == b'.'

-- the fields' constraints on a thread id, and its validator
unfoldable pub is_valid_thread_id : Option Text → Bool
unfolding is_id_char
is_valid_thread_id none = true
is_valid_thread_id (some t) = leb (length t) 128 && is_nonempty t && all is_id_char t

unfoldable pub is_valid : InvokeRequest → Bool
unfolding is_valid_thread_id
is_valid req =
    leb 1 (length req.input) && leb (length req.input) 32_768 && is_valid_thread_id req.thread_id

-- An answer: a body, or an error with its status. `aborted` is a request whose task was cancelled.
pub data Response (A : Type 0) : Type 0 where
  answer : A → Response A
  http_error : ℕ → Response A
  aborted : Response A

-- what the framework makes of an exception that a route lets through
abbrev pub unhandled : {A : Type 0} → Exn → Response A
unhandled cancelled = aborted
unhandled (failure k) = http_error 500
unhandled (audit_error m) = http_error 500

abbrev pub respond : {A : Type 0} → Result A → Response A
respond (ok a) = answer a
respond (raised e) = unhandled e

-- `except AuditError`
abbrev pub respond_invoke : Result InvokeResult → Response InvokeResult
respond_invoke (ok r) = answer r
respond_invoke (raised (audit_error m)) = http_error 503
respond_invoke (raised (failure k)) = http_error 500
respond_invoke (raised cancelled) = aborted

abbrev pub Route : Type 0 → Type 0
Route A = World → Response A × World

-- POST /agent/invoke; a request that is not valid never reaches the route
unfoldable pub post_invoke : Env → Supervisor → InvokeRequest → Route InvokeResult
unfolding is_valid
post_invoke env sup req w =
    if is_valid req
    then (let (r, w') = invoke env sup req.thread_id req.input req.metadata w in
        (respond_invoke r, w'))
    else (http_error 422, w)

abbrev pub found_or_404 : Result (Option ThreadStatus) → Response ThreadStatus
found_or_404 (ok none) = http_error 404
found_or_404 (ok (some row)) = answer row
found_or_404 (raised e) = unhandled e

-- GET /agent/status/{thread_id}
unfoldable pub get_status : Env → Text → Route ThreadStatus
get_status env tid w = let (r, w') = get_thread_status env tid w in (found_or_404 r, w')

-- POST /agent/kill/{thread_id}
unfoldable pub post_kill : Env → Text → Route KillResult
post_kill env tid w = let (r, w') = request_kill env tid w in (respond r, w')

-- GET /metrics/gates
unfoldable pub get_gates : Env → Route (List (Text × Gate))
get_gates env w = let (r, w') = gate_latency_summary env w in (respond r, w')
