-- ===== src/Db/Tests.antt =====
-- db: runs of the scanner and the binder on small queries, and the theorems at such inputs.
use go_dev_sdk.Prelude.{
  ◌+◌, ◌≤◌, ◌≡◌, ◌↔◌, refl, List, [], ◌∷◌, arith, Bytes, codes, length, loop, byte_at, index_of,
  starts_with, to_lower, trim_space, eq_bytes, itoa,
}
use go_dev_sdk.Prelude.Int.{pos}
use go_dev_sdk.Db.Driver.{mysql, postgres, postgres_driver, driver_for}
use go_dev_sdk.Db.Scan.{
  skip_quoted, skip_line_comment, skip_dollar_quoted, is_escape_string, is_line_comment,
  placeholder_indexes,
}
use go_dev_sdk.Db.Scan.Placeholders.{In, Visits, placeholder_indexes-In}
use go_dev_sdk.Db.Protect.{protect, restore}
use go_dev_sdk.Db.Protect.RoundTrip.{restore-protect}
use go_dev_sdk.Db.Bind.Values.{
  Val, Result, ok, opaque, sequence, cons, nil, call_valuers, slice_value,
}
use go_dev_sdk.Db.Bind.{expand_slices, rebind, bind_query}
use go_dev_sdk.Db.Bind.Weave.{weave}
use go_dev_sdk.Db.Bind.Rebinding.{numbered, rebind-weave}
use go_dev_sdk.Db.Bind.Expansion.{count_marks, expand_slices_count}
use go_dev_sdk.Db.Bind.Query.{bind_query-rebind}
use go_dev_sdk.Db.Config.{Config, is_ssl_mode}
use go_dev_sdk.Db.Config.Laws.{IsReasonable}

-- A quoted '?', a line comment, and two placeholders.
abbrev query : Bytes
query = codes "a='?' -- ?\n=? or b=?"

found : placeholder_indexes query postgres ≡ 12 ∷ 19 ∷ []
unfolding placeholder_indexes skip_quoted skip_line_comment is_escape_string is_line_comment
    index_of starts_with loop
found = refl

rebound : rebind query postgres_driver ≡ codes "a='?' -- ?\n=$1 or b=$2"
unfolding rebind placeholder_indexes skip_quoted skip_line_comment is_escape_string is_line_comment
    index_of starts_with loop itoa
rebound = refl

-- A dollar-quoted body hides its '?' in PostgreSQL, a backslash escapes a quote in MySQL.
dollar_quoted : placeholder_indexes (codes "$t$ ? $t$ ?") postgres ≡ 10 ∷ []
unfolding placeholder_indexes skip_dollar_quoted index_of starts_with loop
dollar_quoted = refl

escaped : placeholder_indexes (codes "'\\'?' ?") mysql ≡ 6 ∷ []
unfolding placeholder_indexes skip_quoted is_escape_string loop
escaped = refl

abbrev pair : Val
pair = sequence (cons (opaque 1) (cons (opaque 2) nil))

expanded :
    expand_slices (codes "x IN (?)") (pair ∷ []) mysql
    ≡ ok (codes "x IN (?, ?)", opaque 1 ∷ opaque 2 ∷ [])
unfolding expand_slices call_valuers placeholder_indexes loop slice_value
expanded = refl

placeholder_indexes-In_example :
    In 12 (placeholder_indexes query postgres)
    ↔ (Visits query postgres 12 0 × (12 + 1 ≤ length query) × (byte_at query 12 ≡ b'?'))
placeholder_indexes-In_example = placeholder_indexes-In query postgres 12

abbrev cast_query : Bytes
cast_query = codes "a[1:2]::int = ':x'"

restore-protect_example : restore (protect cast_query postgres) ≡ cast_query
restore-protect_example = restore-protect cast_query postgres (omega arith)

rebind-weave_example :
    rebind query postgres_driver
    ≡ weave 0 query (numbered postgres_driver.bind_type 0 (placeholder_indexes query postgres))
rebind-weave_example = rebind-weave query postgres_driver

expand_slices_count_example :
    count_marks (codes "x IN (?, ?)") + 1 ≡ count_marks (codes "x IN (?)") + 2
expand_slices_count_example =
    expand_slices_count (codes "x IN (?)") (pair ∷ []) mysql (codes "x IN (?, ?)")
      (opaque 1 ∷ opaque 2 ∷ []) expanded

-- A stand-in for sqlx.Named on a query with no names.
abbrev no_names : Bytes → Val → Result (Bytes × List Val)
no_names q arg = ok (q, [])

bind_query-rebind_example :
    bind_query no_names postgres_driver cast_query (opaque 0)
    ≡ ok (rebind cast_query postgres_driver, [])
bind_query-rebind_example =
    bind_query-rebind no_names postgres_driver cast_query (opaque 0) (omega arith) refl refl

abbrev local : Config
local = record {
  driver = codes " PGX";
  dsn = [];
  host = codes "localhost";
  port = pos 0;
  database = codes "app";
  username = codes "root";
  password = [];
  ssl_mode = codes "Disable ";
  max_open_conns = pos 10;
  max_idle_conns = pos 0;
  conn_max_lifetime = pos 0;
  conn_max_idle_time = pos 0;
}

local-IsReasonable : IsReasonable local
unfolding driver_for to_lower trim_space eq_bytes is_ssl_mode
local-IsReasonable = ground arith
