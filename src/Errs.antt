-- ===== src/Errs.antt =====
-- errs: coded errors, their metadata and their form in the log. An error is a tree as errors.Is and
-- errors.AsType walk it; of a metadata value its %v text is kept, and stack traces are left out.
pub mod Laws
mod Tests
use go_dev_sdk.Prelude.{
  ℕ, Bool, true, false, ◌&&◌, ◌||◌, ◌==◌, not, List, [], ◌∷◌, ◌++◌, Option, none, some, Bytes,
  codes, eq_bytes, is_empty, if◌then◌else◌,
}
use go_dev_sdk.Prelude.Int.{ℤ, pos, negsuc, is_zero}

-- A map, the key set last first. A nil map is not an empty one.
abbrev pub Meta : Type 0
Meta = List (Bytes × Bytes)

-- `coded` is an *Error without a cause, `caused` one with a cause, and `nil_coded` a nil *Error in an
-- interface; `wrapped` is fmt.Errorf with one %w, `joined` errors.Join.
pub data Err : Type 0 where
  coded : ℤ → Bytes → Option Meta → Err
  caused : ℤ → Bytes → Option Meta → Err → Err
  nil_coded : Err
  wrapped : Bytes → Err → Err
  joined : Err → Err → Err
  plain : Bytes → Err
  deadline_exceeded canceled : Err

pub record Error : Type 0 where
  pub code : ℤ
  pub message : Bytes
  pub meta : Option Meta
  pub cause : Option Err

-- The error interface that holds an *Error.
abbrev pub as_err : Error → Err
as_err e = elim e.cause [
  | none ↦ coded e.code e.message e.meta
  | some c ↦ caused e.code e.message e.meta c
]

abbrev or_else {ℓ} : {A : Type ℓ} → Option A → Option A → Option A
or_else none y = y
or_else (some x) y = some x

-- `errors.AsType[*Error]`: none where there is none; a nil *Error is `some none`.
unfoldable pub as_type : Err → Option (Option Error)
as_type (coded k msg meta) =
    some (some (record { code = k; message = msg; meta = meta; cause = none }))
as_type (caused k msg meta e) =
    some (some (record { code = k; message = msg; meta = meta; cause = some e }))
as_type nil_coded = some none
as_type (wrapped _ e) = as_type e
as_type (joined e f) = or_else (as_type e) (as_type f)
as_type (plain _) = none
as_type deadline_exceeded = none
as_type canceled = none

abbrev pub new : ℤ → Bytes → Error
new k msg = record { code = k; message = msg; meta = none; cause = none }

abbrev pub wrap : ℤ → Bytes → Err → Error
wrap k msg e = record { code = k; message = msg; meta = none; cause = some e }

-- `AsError` of an error that is not nil, with its text.
unfoldable pub as_error : Bytes → Err → Option Error
unfolding as_type
as_error text err = elim (as_type err) [
  | some e ↦ e
  | none ↦ some (record { code = pos 0; message = text; meta = none; cause = some err })
]

abbrev pub look_up : Bytes → Meta → Option Bytes
look_up key [] = none
look_up key ((k, v) ∷ m) = let rest = look_up key m in if eq_bytes key k then some v else rest

abbrev pub entries : Option Meta → Meta
entries none = []
entries (some m) = m

abbrev pub debug_key : Bytes
debug_key = codes "debug"

abbrev or_empty : Option Bytes → Bytes
or_empty none = []
or_empty (some v) = v

-- `Debug`.
unfoldable pub debug : Option Meta → Bytes
debug m = or_empty (look_up debug_key (entries m))

unfoldable pub with_meta : Bytes → Bytes → Error → Error
with_meta key v e = record e { meta = some ((key, v) ∷ entries e.meta) }

unfoldable pub with_debug : Bytes → Error → Error
unfolding with_meta
with_debug detail e = with_meta debug_key detail e

-- `Error`, with %v of the cause given.
unfoldable pub error_text : (Err → Bytes) → Error → Bytes
error_text shown e = elim e.cause [
  | none ↦ e.message
  | some c ↦ e.message ++ (codes ": " ++ shown c)
]

abbrev pub same : ℤ → ℤ → Bool
same (pos n) (pos k) = n == k
same (pos _) (negsuc _) = false
same (negsuc _) (pos _) = false
same (negsuc n) (negsuc k) = n == k

-- The method `Is` of an *Error with this code.
unfoldable pub is_code : ℤ → ℤ → Bool
is_code k target = not (is_zero k) && same k target

-- `errors.Is(err, t)` for an *Error t of this code that is not itself in err. `none` is the panic of the
-- method on a nil *Error.
unfoldable pub is_err : ℤ → Err → Option Bool
unfolding is_code
is_err t (coded k _ _) = some (is_code k t)
is_err t (caused k _ _ e) = let rest = is_err t e in if is_code k t then some true else rest
is_err t nil_coded = none
is_err t (wrapped _ e) = is_err t e
is_err t (joined e f) =
    let rest = is_err t f in
    elim (is_err t e) [ none ↦ none | some b ↦ if b then some true else rest ]
is_err t (plain _) = some false
is_err t deadline_exceeded = some false
is_err t canceled = some false

-- What slog is given: a text, or a group with the debug text where it is not empty, the rest of the
-- metadata, and the cause where there is one.
pub data LogValue : Type 0 where
  text : Err → LogValue
  group : ℤ → Bytes → Bytes → Meta → LogValue
  group_caused : ℤ → Bytes → Bytes → Meta → LogValue → LogValue

unfoldable pub without : Bytes → Meta → Meta
without key [] = []
without key ((k, v) ∷ m) =
    let rest = without key m in if eq_bytes key k then rest else (k, v) ∷ rest

abbrev pub grouped : ℤ → Bytes → Option Meta → Option LogValue → Option LogValue
grouped k msg meta none = none
grouped k msg meta (some v) =
    some (group_caused k msg (debug meta) (without debug_key (entries meta)) v)

-- The text of an error panics: that of a nil *Error, and of errors.Join if one of its errors has such a text.
-- fmt recovers the panics of what it formats.
unfoldable pub text_panics : Err → Bool
text_panics (coded _ _ _) = false
text_panics (caused _ _ _ _) = false
text_panics nil_coded = true
text_panics (wrapped _ _) = false
text_panics (joined e f) = text_panics e || text_panics f
text_panics (plain _) = false
text_panics deadline_exceeded = false
text_panics canceled = false

-- The value of a cause: its own group if it is an *Error itself, and else its text. `none` is the panic
-- of `LogValue` on a nil *Error, or that of the text.
unfoldable pub log_value : Err → Option LogValue
unfolding debug without text_panics
log_value (coded k msg meta) = some (group k msg (debug meta) (without debug_key (entries meta)))
log_value (caused k msg meta e) = grouped k msg meta (log_value e)
log_value nil_coded = none
log_value (wrapped p e) = some (text (wrapped p e))
log_value (joined e f) = if text_panics e || text_panics f then none else some (text (joined e f))
log_value (plain t) = some (text (plain t))
log_value deadline_exceeded = some (text deadline_exceeded)
log_value canceled = some (text canceled)

-- `SlogAttr`: its value.
unfoldable pub slog_value : Err → Option LogValue
unfolding as_type log_value
slog_value err = elim (as_type err) [
  | none ↦ some (text err)
  | some none ↦ none
  | some (some e) ↦ log_value (as_err e)
]
