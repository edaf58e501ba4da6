-- ===== src/Nats/Failure.antt =====
-- nats/internal/wire/errortype.go: `ErrorType`, on errors as trees that errors.Is and errors.AsType
-- walk.
pub mod Laws
use go_dev_sdk.Prelude.{
  ℕ, suc, not, ◌&&◌, Bool, true, false, ◌||◌, ◌==◌, Option, none, some, Bytes, codes, itoa,
  if◌then◌else◌, [], ◌∷◌,
}
use go_dev_sdk.Prelude.Int.{itoa_int, ℤ, pos, negsuc}

pub data Sentinel : Type 0 where
  panic_recovered no_retry deadline_exceeded canceled nats_timeout no_metadata : Sentinel

-- `nil_coded` is a nil *errs.Error in an interface, and `coded` one that is not nil, without a cause.
-- `wrap` is fmt.Errorf with one %w, `joined` with two; `api_error` is a
-- jetstream.APIError with its ErrorCode, `net_error` a net.Error with its Timeout().
pub data Err : Type 0 where
  sentinel : Sentinel → Err
  wrap : Bytes → Err → Err
  joined : Err → Err → Err
  coded : ℤ → Err
  nil_coded : Err
  api_error : ℕ → Err
  net_error : Bool → Err
  plain : Bytes → Err

abbrev number : Sentinel → ℕ
number panic_recovered = 0
number no_retry = 1
number deadline_exceeded = 2
number canceled = 3
number nats_timeout = 4
number no_metadata = 5

unfoldable pub is_err : Err → Sentinel → Bool
is_err (sentinel t) s = number t == number s
is_err (wrap _ e) s = is_err e s
is_err (joined e f) s = is_err e s || is_err f s
is_err (coded _) s = false
is_err nil_coded s = false
is_err (api_error _) s = false
is_err (net_error _) s = false
is_err (plain _) s = false

-- `errors.Is` meets a nil *Error, whose Unwrap panics, before it finds the sentinel.
unfoldable pub meets_nil : Err → Sentinel → Bool
unfolding is_err
meets_nil (sentinel _) s = false
meets_nil (wrap _ e) s = meets_nil e s
meets_nil (joined e f) s = meets_nil e s || (not (is_err e s) && meets_nil f s)
meets_nil (coded _) s = false
meets_nil nil_coded s = true
meets_nil (api_error _) s = false
meets_nil (net_error _) s = false
meets_nil (plain _) s = false

abbrev or_else {ℓ} : {A : Type ℓ} → Option A → Option A → Option A
or_else none y = y
or_else (some x) y = some x

-- The first *Error of the tree, where there is one, is nil.
unfoldable pub first_is_nil : Err → Option Bool
first_is_nil (sentinel _) = none
first_is_nil (wrap _ e) = first_is_nil e
first_is_nil (joined e f) = or_else (first_is_nil e) (first_is_nil f)
first_is_nil (coded _) = some false
first_is_nil nil_coded = some true
first_is_nil (api_error _) = none
first_is_nil (net_error _) = none
first_is_nil (plain _) = none

unfoldable pub as_coded : Err → Option ℤ
as_coded (sentinel _) = none
as_coded (wrap _ e) = as_coded e
as_coded (joined e f) = or_else (as_coded e) (as_coded f)
as_coded (coded k) = some k
as_coded nil_coded = none
as_coded (api_error _) = none
as_coded (net_error _) = none
as_coded (plain _) = none

unfoldable pub as_api_error : Err → Option ℕ
as_api_error (sentinel _) = none
as_api_error (wrap _ e) = as_api_error e
as_api_error (joined e f) = or_else (as_api_error e) (as_api_error f)
as_api_error (coded _) = none
as_api_error nil_coded = none
as_api_error (api_error k) = some k
as_api_error (net_error _) = none
as_api_error (plain _) = none

-- context.DeadlineExceeded is a net.Error with Timeout() too.
unfoldable pub as_net_timeout : Err → Option Bool
as_net_timeout (sentinel deadline_exceeded) = some true
as_net_timeout (sentinel _) = none
as_net_timeout (wrap _ e) = as_net_timeout e
as_net_timeout (joined e f) = or_else (as_net_timeout e) (as_net_timeout f)
as_net_timeout (coded _) = none
as_net_timeout nil_coded = none
as_net_timeout (api_error _) = none
as_net_timeout (net_error t) = some t
as_net_timeout (plain _) = none

abbrev is_timeout : Option Bool → Bool
is_timeout none = false
is_timeout (some t) = t

abbrev api_code : Option ℕ → Bytes → Bytes
api_code none other = other
api_code (some k) other = if k == 0 then other else itoa k

-- `ErrorType` panics where its first errors.Is does: after that, either the sentinel was found, or the
-- whole tree has no nil *Error.
unfoldable pub type_panics : Err → Bool
unfolding meets_nil
type_panics e = meets_nil e panic_recovered

abbrev is_nil : Option Bool → Bool
is_nil none = false
is_nil (some b) = b

-- `errs.SlogAttr` panics: LogValue of a nil *Error.
unfoldable pub slog_panics : Err → Bool
unfolding first_is_nil
slog_panics e = is_nil (first_is_nil e)

-- The type of an error that does not make it panic.
unfoldable pub error_type : Option Err → Bytes
error_type none = []
error_type (some e) =
    let uncoded =
      if is_err e deadline_exceeded || is_err e nats_timeout
      then codes "timeout"
      else if is_timeout (as_net_timeout e)
      then codes "timeout"
      else if is_err e canceled
      then codes "canceled"
      else codes "_OTHER" in
    if is_err e panic_recovered
    then codes "panic"
    else elim (as_coded e) [ none ↦ api_code (as_api_error e) uncoded | some k ↦ itoa_int k ]
