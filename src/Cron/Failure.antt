-- ===== src/Cron/Failure.antt =====
-- cron/errors.go, and how cron/engine/middleware.go tells errors apart. An error is a tree as
-- errors.Is and errors.AsType walk it; only what these functions read of it is kept.
use go_dev_sdk.Prelude.{
  ℕ, Bool, true, false, ◌||◌, Option, none, some, Bytes, codes, ◌==◌, if◌then◌else◌,
}
use go_dev_sdk.Prelude.Int.{itoa_int, ℤ}

pub data Sentinel : Type 0 where
  lock_held job_disabled job_not_found job_already_exists job_running : Sentinel
  engine_already_started engine_stopped empty_job_name nil_handler invalid_schedule : Sentinel
  panic_recovered deadline_exceeded canceled : Sentinel

-- `wrap` is fmt.Errorf with one %w, `joined` with two; `coded` has a Code(), and `coded_wrap` also a
-- cause; `net_error` is a net.Error with its Timeout(); `plain` is any other.
pub data Err : Type 0 where
  sentinel : Sentinel → Err
  wrap : Bytes → Err → Err
  joined : Err → Err → Err
  coded : ℤ → Err
  coded_wrap : ℤ → Err → Err
  net_error : Bool → Err
  plain : Bytes → Err

abbrev number : Sentinel → ℕ
number lock_held = 0
number job_disabled = 1
number job_not_found = 2
number job_already_exists = 3
number job_running = 4
number engine_already_started = 5
number engine_stopped = 6
number empty_job_name = 7
number nil_handler = 8
number invalid_schedule = 9
number panic_recovered = 10
number deadline_exceeded = 11
number canceled = 12

-- `errors.Is(err, s)`.
unfoldable pub is_err : Err → Sentinel → Bool
is_err (sentinel t) s = number t == number s
is_err (wrap _ e) s = is_err e s
is_err (joined e f) s = is_err e s || is_err f s
is_err (coded _) s = false
is_err (coded_wrap _ e) s = is_err e s
is_err (net_error _) s = false
is_err (plain _) s = false

abbrev or_else : {A : Type 0} → Option A → Option A → Option A
or_else none y = y
or_else (some x) y = some x

-- `errors.AsType` for the type with a Code(): the code of the first in the tree.
unfoldable pub as_coded : Err → Option ℤ
as_coded (sentinel _) = none
as_coded (wrap _ e) = as_coded e
as_coded (joined e f) = or_else (as_coded e) (as_coded f)
as_coded (coded k) = some k
as_coded (coded_wrap k _) = some k
as_coded (net_error _) = none
as_coded (plain _) = none

-- `errors.AsType[net.Error]`: its Timeout(). context.DeadlineExceeded is a net.Error too.
unfoldable pub as_net_timeout : Err → Option Bool
as_net_timeout (sentinel deadline_exceeded) = some true
as_net_timeout (sentinel _) = none
as_net_timeout (wrap _ e) = as_net_timeout e
as_net_timeout (joined e f) = or_else (as_net_timeout e) (as_net_timeout f)
as_net_timeout (coded _) = none
as_net_timeout (coded_wrap _ e) = as_net_timeout e
as_net_timeout (net_error t) = some t
as_net_timeout (plain _) = none

unfoldable pub skip_reason : Err → Option Bytes
skip_reason e =
    if is_err e job_disabled
    then some (codes "disabled")
    else if is_err e lock_held
    then some (codes "lock_held")
    else if is_err e job_running
    then some (codes "running")
    else none

abbrev is_some : {A : Type 0} → Option A → Bool
is_some none = false
is_some (some _) = true

unfoldable pub is_skip : Err → Bool
unfolding skip_reason
is_skip e = is_some (skip_reason e)

abbrev is_timeout : Option Bool → Bool
is_timeout none = false
is_timeout (some t) = t

unfoldable pub error_type : Err → Bytes
error_type e =
    let uncoded =
      if is_err e deadline_exceeded
      then codes "timeout"
      else if is_timeout (as_net_timeout e)
      then codes "timeout"
      else if is_err e canceled
      then codes "canceled"
      else codes "_OTHER" in
    if is_err e panic_recovered
    then codes "panic"
    else elim (as_coded e) [ none ↦ uncoded | some k ↦ itoa_int k ]
