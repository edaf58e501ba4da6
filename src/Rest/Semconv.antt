-- ===== src/Rest/Semconv.antt =====
-- rest/internal/semconv/semconv.go: the values that the telemetry of the server and the client share.
use go_dev_sdk.Prelude.{
  ℕ, ltb, Bool, true, false, ◌||◌, List, [], ◌∷◌, ◌++◌, Option, none, some, Bytes, codes, eq_bytes,
  is_empty, to_lower, cut_prefix, itoa, if◌then◌else◌,
}
use go_dev_sdk.Prelude.Int.{ℤ, is_zero}
use go_dev_sdk.Errs.{Err, as_type, caused, wrapped, joined, deadline_exceeded, canceled}

unfoldable pub is_known : Bytes → List Bytes → Bool
is_known m [] = false
is_known m (k ∷ ks) = eq_bytes m k || is_known m ks

abbrev pub known_methods : List Bytes
known_methods =
    codes "GET"
    ∷ codes "HEAD"
    ∷ codes "POST"
    ∷ codes "PUT"
    ∷ codes "DELETE"
    ∷ codes "CONNECT"
    ∷ codes "OPTIONS"
    ∷ codes "TRACE"
    ∷ codes "PATCH"
    ∷ []

abbrev pub other_method : Bytes
other_method = codes "_OTHER"

-- `Method`: the method and the original.
unfoldable pub method : Bytes → Bytes × Bytes
unfolding is_known
method raw = if is_known raw known_methods then (raw, []) else (other_method, raw)

unfoldable pub span_name : Bytes → Bytes → Bytes
span_name m route =
    let m' = if eq_bytes m other_method then codes "HTTP" else m in
    if is_empty route then m' else m' ++ (codes " " ++ route)

abbrev major : Option Bytes → Bytes
major none = []
major (some v) =
    if eq_bytes v (codes "2.0")
    then codes "2"
    else if eq_bytes v (codes "3.0")
    then codes "3"
    else v

unfoldable pub protocol_version : Bytes → Bytes
protocol_version proto = major (cut_prefix proto (codes "HTTP/"))

-- strings.EqualFold, on ASCII.
unfoldable pub scheme : Bytes → Bytes
scheme raw = if eq_bytes (to_lower raw) (codes "https") then codes "https" else codes "http"

abbrev non_zero : ℤ → Option ℤ
non_zero k = if is_zero k then none else some k

-- `ErrsCode`, as none for (_, false).
unfoldable pub errs_code : Err → Option ℤ
unfolding as_type
errs_code err = elim (as_type err) [
  | none ↦ none
  | some none ↦ none
  | some (some e) ↦ non_zero e.code
]

unfoldable pub server_error_type : ℕ → Bytes
server_error_type status = if ltb status 500 then [] else itoa status

unfoldable pub is_deadline : Err → Bool
is_deadline deadline_exceeded = true
is_deadline (wrapped _ e) = is_deadline e
is_deadline (joined e f) = is_deadline e || is_deadline f
is_deadline (caused _ _ _ e) = is_deadline e
is_deadline _ = false

unfoldable pub is_canceled : Err → Bool
is_canceled canceled = true
is_canceled (wrapped _ e) = is_canceled e
is_canceled (joined e f) = is_canceled e || is_canceled f
is_canceled (caused _ _ _ e) = is_canceled e
is_canceled _ = false

unfoldable pub client_error_type : ℕ → Option Err → Bytes
unfolding is_deadline is_canceled
client_error_type status none = if ltb status 400 then [] else itoa status
client_error_type status (some e) =
    if is_deadline e
    then codes "timeout"
    else if is_canceled e
    then codes "canceled"
    else other_method
