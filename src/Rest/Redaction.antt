-- ===== src/Rest/Redaction.antt =====
-- rest/client/middleware.go: what of a request URL goes into the telemetry. How net.SplitHostPort and
-- strconv.Atoi read a text is a parameter.
pub mod Laws
use go_dev_sdk.Prelude.{
  ℕ, ◌-◌, Bool, true, false, ◌&&◌, ◌||◌, ◌==◌, not, List, [], ◌∷◌, ◌++◌, Option, none, some, Bytes,
  codes, eq_bytes, is_empty, split_at, cut_at, byte_at, length, slice, if◌then◌else◌,
}
use go_dev_sdk.Rest.Semconv.{scheme}

-- One segment of the query: its key and "=", or nothing of it.
abbrev pub redacted : Option (Bytes × Bytes) → Bytes
redacted none = codes "REDACTED"
redacted (some (key, _)) = key ++ codes "=REDACTED"

-- The loop over the segments, with what the builder holds.
unfoldable pub redact_segments : List Bytes → Bytes → Bytes
redact_segments [] out = out
redact_segments (seg ∷ segs) out = redact_segments segs (
    if is_empty seg
    then out
    else (if is_empty out then out else out ++ codes "&") ++ redacted (cut_at b'=' seg))

unfoldable pub redact_query : Bytes → Bytes
unfolding redact_segments
redact_query raw = redact_segments (split_at b'&' raw) []

pub record Uri : Type 0 where
  pub scheme : Bytes
  pub host : Bytes
  pub path_original : Bytes
  pub query_string : Bytes

unfoldable pub redact_url : Uri → Bytes
unfolding redact_query
redact_url u =
    let path = if is_empty u.path_original then codes "/" else u.path_original in
    let base = u.scheme ++ (codes "://" ++ (u.host ++ path)) in
    let q = redact_query u.query_string in if is_empty q then base else base ++ (codes "?" ++ q)

-- `checkURL`: none for an error.
unfoldable pub is_sendable : Uri → Bool
is_sendable u = not (
    not (eq_bytes u.scheme (codes "http")) && not (eq_bytes u.scheme (codes "https"))
    || is_empty u.host)

module _ (split_host_port : Bytes → Option (Bytes × Bytes)) (atoi : Bytes → Option ℕ) where
  abbrev address : Option (Bytes × Bytes) → Bytes → Bytes
  address (some (host, _)) authority = host
  address none authority =
      if byte_at authority 0 == b'[' && byte_at authority (length authority - 1) == b']'
      then slice 1 (length authority - 1) authority
      else authority

  unfoldable pub server_address : Bytes → Bytes
  server_address authority = address (split_host_port authority) authority

  abbrev written_port : Option (Bytes × Bytes) → Option ℕ
  written_port none = none
  written_port (some (_, port)) = atoi port

  abbrev or_default : Option ℕ → Bytes → ℕ
  or_default (some n) s = n
  or_default none s = if eq_bytes s (codes "https") then 443 else 80

  unfoldable pub server_port : Uri → ℕ
  unfolding scheme
  server_port u = or_default (written_port (split_host_port u.host)) (scheme u.scheme)
