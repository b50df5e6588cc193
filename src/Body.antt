-- ===== src/Body.antt =====
-- include/cql_body.hpp: the interface of the eight message bodies, with the class as a constructor.
pub mod Block
pub mod Error
pub mod Options
pub mod Ready
pub mod Prepare
pub mod Startup
pub mod Supported
pub mod Query
pub mod Results
use uv_client_server.Base.{ℕ, Bool, Result, ok, ◌>>=◌}
use uv_client_server.Memory.{Bytes, Allocator}
use Block.{Prepared}
use Error
use Error.{BodyError}
use Options
use Ready
use Prepare
use Prepare.{BodyPrepare}
use Startup
use Startup.{BodyStartup}
use Supported
use Supported.{BodySupported}
use Query
use Query.{BodyQuery}
use Results
use Results.{BodyResult}

pub data Body : Type 0 where
  error : BodyError → Body
  startup : BodyStartup → Body
  ready : Body
  options : Body
  supported : BodySupported → Body
  query : BodyQuery → Body
  result : BodyResult → Body
  prepare_statement : BodyPrepare → Body

-- Body::opcode, virtual
abbrev pub opcode : Body → ℕ
opcode (error b) = Error.opcode
opcode (startup b) = Startup.opcode
opcode ready = Ready.opcode
opcode options = Options.opcode
opcode (supported b) = Supported.opcode
opcode (query b) = Query.opcode
opcode (result b) = Results.opcode
opcode (prepare_statement b) = Prepare.opcode

-- Body::consume, virtual
unfoldable pub consume : Body → Bytes → Result (Body × Bool)
consume (error b) buffer = do (b', good) ← Error.consume b buffer; ok (error b', good)
consume (startup b) buffer = do (b', good) ← Startup.consume b buffer; ok (startup b', good)
consume ready buffer = do good ← Ready.consume buffer; ok (ready, good)
consume options buffer = do good ← Options.consume buffer; ok (options, good)
consume (supported b) buffer = do (b', good) ← Supported.consume b buffer; ok (supported b', good)
consume (query b) buffer = do (b', good) ← Query.consume b buffer; ok (query b', good)
consume (result b) buffer = do (b', good) ← Results.consume b buffer; ok (result b', good)
consume (prepare_statement b) buffer = do
  (b', good) ← Prepare.consume b buffer
  ok (prepare_statement b', good)

-- Body::prepare, virtual. Only those bodies get `size` whose code reads it or leaves it.
unfoldable pub prepare : Allocator → Body → ℕ → ℕ → Result Prepared
prepare alloc (error b) reserved size = Error.prepare alloc b reserved
prepare alloc (startup b) reserved size = Startup.prepare alloc b reserved
prepare alloc ready reserved size = Ready.prepare alloc reserved size
prepare alloc options reserved size = Options.prepare alloc reserved size
prepare alloc (supported b) reserved size = Supported.prepare alloc reserved size
prepare alloc (query b) reserved size = Query.prepare alloc b reserved
prepare alloc (result b) reserved size = Results.prepare alloc reserved size
prepare alloc (prepare_statement b) reserved size = Prepare.prepare alloc b reserved
