-- ===== src/Errs/Laws.antt =====
-- errs: matching by code, and metadata.
use go_dev_sdk.Prelude.{
  ◌≡◌, refl, Bool, true, false, ◌&&◌, ◌||◌, not, List, [], ◌∷◌, ◌++◌, Option, none, some, Bytes,
  eq_bytes, eq_bytes_self, arith, if◌then◌else◌,
}
use go_dev_sdk.Prelude.Int.{ℤ, is_zero}
use go_dev_sdk.Errs.{
  text_panics, Meta, Err, coded, caused, nil_coded, wrapped, joined, plain, deadline_exceeded,
  canceled, Error, as_err, as_type, look_up, entries, debug, debug_key, log_value, with_meta,
  with_debug, same, is_code, is_err,
}

-- The codes of all *Errors in the tree.
abbrev pub codes_in : Err → List ℤ
codes_in (coded k _ _) = k ∷ []
codes_in (caused k _ _ e) = k ∷ codes_in e
codes_in nil_coded = []
codes_in (wrapped _ e) = codes_in e
codes_in (joined e f) = codes_in e ++ codes_in f
codes_in (plain _) = []
codes_in deadline_exceeded = []
codes_in canceled = []

-- No nil *Error is in the tree.
abbrev pub HasNoNil : Err → Type 0
HasNoNil (coded _ _ _) = Unit
HasNoNil (caused _ _ _ e) = HasNoNil e
HasNoNil nil_coded = true ≡ false
HasNoNil (wrapped _ e) = HasNoNil e
HasNoNil (joined e f) = HasNoNil e × HasNoNil f
HasNoNil (plain _) = Unit
HasNoNil deadline_exceeded = Unit
HasNoNil canceled = Unit

abbrev pub is_among : ℤ → List ℤ → Bool
is_among t [] = false
is_among t (k ∷ ks) = same k t || is_among t ks

is_zero-same : (k t : ℤ) → same k t ≡ true → is_zero k ≡ is_zero t
is_zero-same k t h = ground arith

is_among-append :
    (t : ℤ) (ks ls : List ℤ) → is_among t (ks ++ ls) ≡ (is_among t ks || is_among t ls)
is_among-append t [] ls = refl
is_among-append t (k ∷ ks) ls = ground (arith, is_among-append t ks ls)

-- An error without a nil *Error in its tree matches an *Error of another place exactly by a code that is
-- not zero: if some *Error in its tree has the same.
pub is_err-codes :
    (t : ℤ) (e : Err) → HasNoNil e → is_err t e ≡ some (not (is_zero t) && is_among t (codes_in e))
unfolding is_err is_code
is_err-codes t (coded k _ _) h = ground (arith, is_zero-same k t)
is_err-codes t (caused k _ _ e) h = ground (arith, is_err-codes t e h, is_zero-same k t)
is_err-codes t nil_coded h = absurd (cc)
is_err-codes t (wrapped _ e) h = is_err-codes t e h
is_err-codes t (joined e f) h =
    ground (
      arith,
      is_err-codes t e h.0,
      is_err-codes t f h.1,
      is_among-append t (codes_in e) (codes_in f),
    )
is_err-codes t (plain _) h = ground arith
is_err-codes t deadline_exceeded h = ground arith
is_err-codes t canceled h = ground arith

as_type-as_err :
    (k : ℤ) (msg : Bytes) (meta : Option Meta) (c : Option Err)
    → let e : Error = record { code = k; message = msg; meta = meta; cause = c } in
      as_type (as_err e) ≡ some (some e)
unfolding as_type
as_type-as_err k msg meta none = refl
as_type-as_err k msg meta (some c) = refl

same_codes :
    (k : ℤ) (msg : Bytes) (meta other : Option Meta) (c : Option Err)
    → let e : Error = record { code = k; message = msg; meta = meta; cause = c } in
      codes_in (as_err (record e { meta = other })) ≡ codes_in (as_err e)
same_codes k msg meta other none = refl
same_codes k msg meta other (some c) = refl

-- Metadata that is added is read back and hides no other, and the error keeps its code, its message, its
-- cause and what it matches.
pub with_meta-look_up :
    (key v other : Bytes) (e : Error)
    → let f = with_meta key v e in
      (look_up other (entries f.meta)
        ≡ (if eq_bytes other key then some v else look_up other (entries e.meta)))
      × (as_type (as_err f) ≡ some (some f))
      × (f.cause ≡ e.cause)
      × (codes_in (as_err f) ≡ codes_in (as_err e))
unfolding with_meta as_type
with_meta-look_up key v other e = (
  refl,
  as_type-as_err e.code e.message (some ((key, v) ∷ entries e.meta)) e.cause,
  refl,
  same_codes e.code e.message e.meta (some ((key, v) ∷ entries e.meta)) e.cause,
)

debug-with_debug : (detail : Bytes) (e : Error) → debug (with_debug detail e).meta ≡ detail
unfolding with_debug with_meta debug
debug-with_debug detail e = rw (eq_bytes_self debug_key) refl

-- A nil *Error, or a join that has one, maybe under more joins.
abbrev pub joins_nil : Err → Bool
joins_nil (coded _ _ _) = false
joins_nil (caused _ _ _ _) = false
joins_nil nil_coded = true
joins_nil (wrapped _ _) = false
joins_nil (joined e f) = joins_nil e || joins_nil f
joins_nil (plain _) = false
joins_nil deadline_exceeded = false
joins_nil canceled = false

-- Along its direct causes, the error ends in a nil *Error, or in a join of one.
abbrev pub ends_nil : Err → Bool
ends_nil (coded _ _ _) = false
ends_nil (caused _ _ _ e) = ends_nil e
ends_nil nil_coded = true
ends_nil (wrapped _ _) = false
ends_nil (joined e f) = joins_nil e || joins_nil f
ends_nil (plain _) = false
ends_nil deadline_exceeded = false
ends_nil canceled = false

abbrev pub is_none {ℓ} : {A : Type ℓ} → Option A → Bool
is_none none = true
is_none (some _) = false

text_joins_nil : (e : Err) → text_panics e ≡ joins_nil e
unfolding text_panics
text_joins_nil (coded _ _ _) = refl
text_joins_nil (caused _ _ _ _) = refl
text_joins_nil nil_coded = refl
text_joins_nil (wrapped _ _) = refl
text_joins_nil (joined e f) = ground (arith, text_joins_nil e, text_joins_nil f)
text_joins_nil (plain _) = refl
text_joins_nil deadline_exceeded = refl
text_joins_nil canceled = refl

pub log_value_panics : (e : Err) → is_none (log_value e) ≡ ends_nil e
unfolding log_value
log_value_panics (coded _ _ _) = refl
log_value_panics (caused _ _ _ e) = ground (arith, log_value_panics e)
log_value_panics nil_coded = refl
log_value_panics (wrapped _ _) = refl
log_value_panics (joined e f) = ground (arith, text_joins_nil e, text_joins_nil f)
log_value_panics (plain _) = refl
log_value_panics deadline_exceeded = refl
log_value_panics canceled = refl
