-- ===== src/Rest/Server.antt =====
-- rest/server: the request and its response, problem responses, and the standard middlewares. The state of
-- a request is that of app.RequestContext; header names are in their canonical form, and of the clock,
-- the trace context and the attributes that come from the network nothing is kept.
pub mod Config
pub mod Respond
pub mod Middleware
pub mod Stack
mod Tests
use go_dev_sdk.Prelude.{
  ℕ, Bool, true, false, List, [], ◌∷◌, Option, none, some, Bytes, codes, eq_bytes, if◌then◌else◌,
}
use go_dev_sdk.Prelude.Int.{ℤ}
use go_dev_sdk.Errs.{Err, LogValue}

pub record Problem : Type 0 where
  pub title : Bytes
  pub status : ℕ
  pub detail : Bytes
  pub code : Option ℤ
  pub request_id : Bytes

-- A body is what the handler wrote, or a problem of the type application/problem+json.
pub data Body : Type 0 where
  written : Bytes → Body
  problem_body : Problem → Body

-- The hijack writer of a streamed response: the handler's, or the one that fails.
pub data Writer : Type 0 where
  no_writer streaming aborted_writer : Writer

abbrev pub Headers : Type 0
Headers = List (Bytes × Bytes)

pub record Response : Type 0 where
  pub status : ℕ
  pub headers : Headers
  pub body : Body
  pub writer : Writer

-- After Response.Reset.
abbrev pub blank_response : Response
blank_response = record { status = 200; headers = []; body = written []; writer = no_writer }

pub data Level : Type 0 where
  info warn error : Level

pub data Event : Type 0 where
  span_started : Bytes → Event
  span_attributes : ℕ → Option ℤ → Bytes → Event
  span_failed span_ended exception panic_logged : Event
  active_up active_down : Bytes → Bytes → Event
  measured : ℕ → Option ℤ → Bytes → Event
  logged : Level → ℕ → List LogValue → Event

pub record Request : Type 0 where
  pub method : Bytes
  pub scheme : Bytes
  pub route : Bytes
  pub request_id : Bytes

-- `stored_id` is what c.Set keeps of the request ID; `errors` are the bound errors, the first one first;
-- `events` what the telemetry was told, the last one first.
pub record Context : Type 0 where
  pub request : Request
  pub response : Response
  pub stored_id : Bytes
  pub errors : List Err
  pub aborted : Bool
  pub hijack_handler : Bool
  pub events : List Event

-- The rest of a chain returns or panics, with what it did to the context.
pub data Ending : Type 0 where
  returns panics : Context → Ending

abbrev pub Chain : Type 0
Chain = Context → Ending

abbrev pub tell : Event → Context → Context
tell e c = record c { events = e ∷ c.events }

-- Header.Set: in place of the values of the name.
unfoldable pub remove_header : Bytes → Headers → Headers
remove_header k [] = []
remove_header k ((n, v) ∷ hs) =
    let rest = remove_header k hs in if eq_bytes n k then rest else (n, v) ∷ rest

unfoldable pub set_header : Bytes → Bytes → Headers → Headers
unfolding remove_header
set_header k v hs = (k, v) ∷ remove_header k hs
