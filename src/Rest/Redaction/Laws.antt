-- ===== src/Rest/Redaction/Laws.antt =====
-- rest/client/middleware.go: the redacted query says nothing of the values.
use go_dev_sdk.Prelude.{
  ◌≡◌, refl, sym, ap, ◌∙◌, inl, inr, Bool-cases, List, [], ◌∷◌, ◌++◌, Option, none, some, Bytes,
  codes, is_empty, split_at, cut_at, if◌then◌else◌,
}
use go_dev_sdk.Rest.Redaction.{Uri, redacted, redact_segments, redact_query, redact_url}

-- What may be seen of a segment: its key where it has one.
abbrev key_of : Option (Bytes × Bytes) → Option Bytes
key_of none = none
key_of (some (key, _)) = some key

-- The keys of the segments that are not empty, in order, with `none` for one without "=".
abbrev pub keys_of : List Bytes → List (Option Bytes)
keys_of [] = []
keys_of (seg ∷ segs) =
    let rest = keys_of segs in if is_empty seg then rest else key_of (cut_at b'=' seg) ∷ rest

-- A query made of keys alone.
abbrev shown : Option Bytes → Bytes
shown none = codes "REDACTED"
shown (some key) = key ++ codes "=REDACTED"

abbrev rendered : List (Option Bytes) → Bytes → Bytes
rendered [] out = out
rendered (k ∷ ks) out = rendered ks ((if is_empty out then out else out ++ codes "&") ++ shown k)

redacted-shown : (o : Option (Bytes × Bytes)) → redacted o ≡ shown (key_of o)
redacted-shown none = refl
redacted-shown (some (key, v)) = refl

redact_segments-rendered :
    (segs : List Bytes) (out : Bytes) → redact_segments segs out ≡ rendered (keys_of segs) out
unfolding redact_segments
redact_segments-rendered [] out = refl
redact_segments-rendered (seg ∷ segs) out = elim (Bool-cases (is_empty seg)) [
  | inl e ↦ rw e (redact_segments-rendered segs out)
  | inr e ↦ rw e (
      redact_segments-rendered segs _
      ∙ ap
          (λ (t : Bytes).
            rendered (keys_of segs) ((if is_empty out then out else out ++ codes "&") ++ t))
          (redacted-shown (cut_at b'=' seg)))
]

-- URLs that differ at most in the values of their queries, with the same keys in the same order, are
-- recorded as the same text: so nothing of a value, nor of a segment without "=", is in it.
pub redact_url-hides :
    (u : Uri) (other : Bytes)
    → keys_of (split_at b'&' u.query_string) ≡ keys_of (split_at b'&' other)
    → redact_url u ≡ redact_url (record u { query_string = other })
unfolding redact_url redact_query
redact_url-hides u other same =
    let q : redact_query u.query_string ≡ redact_query other =
      redact_segments-rendered (split_at b'&' u.query_string) []
      ∙ ap (λ (ks : List (Option Bytes)). rendered ks []) same
      ∙ sym (redact_segments-rendered (split_at b'&' other) []) in
    ap
      (λ (t : Bytes).
        let path = if is_empty u.path_original then codes "/" else u.path_original in
        let base = u.scheme ++ (codes "://" ++ (u.host ++ path)) in
        if is_empty t then base else base ++ (codes "?" ++ t))
      q
