-- ===== src/Request.antt =====
-- include/cql_request.hpp, as the `CallerRequest` of include/cql_common.hpp.
pub mod Waiting
use uv_client_server.Base.{
  ℕ, [], ◌∷◌, List, Bool, true, false, Option, none, some, Result, ok, ◌>>=◌, if◌then◌else◌,
}
use uv_client_server.Memory.{Bytes}
use uv_client_server.Errors.{Error}
use uv_client_server.Message.{Message}

-- `callback` says whether one is set. The mutex, the condition variable and the uv_work_t are left
-- out here; Request/Waiting has the threads that wait.
pub record Request : Type 0 where
  pub flag : Bool
  pub error : Option Error
  pub content : Bytes
  pub result : Option Message
  pub callback : Bool
  pub use_local_loop : Bool

-- How a callback is run.
pub data Wakeup : Type 0 where
  called : Wakeup
  queued : Wakeup

-- Request(): `data(NULL)` makes a std::string of a null pointer; what that does is a parameter.
unfoldable pub new_request : Result Bytes → Result Request
new_request null_string = do
  content ← null_string
  ok (record {
    flag = false;
    error = none;
    content = content;
    result = none;
    callback = false;
    use_local_loop = false;
  })

unfoldable pub ready : Request → Bool
ready r = r.flag

unfoldable pub notify : Request → Request × List Wakeup
notify r = (
  record r { flag = true },
  if r.callback then (if r.use_local_loop then called ∷ [] else queued ∷ []) else [],
)

-- What a thread of libuv does with the work: how often it calls the callback. There may be no work,
-- and no request in it.
unfoldable pub callback_executor : Option (Option Request) → ℕ
callback_executor (some (some r)) = if r.callback then 1 else 0
callback_executor _ = 0
