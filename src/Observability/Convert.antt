-- ===== src/Observability/Convert.antt =====
-- observability/attributes/attributes.go: `ConvertMapsToKVs`. A map is given as its entries in the order of
-- slices.Sorted, which are bytes in their order; the texts of errors, of Stringers and of fmt.Sprint are
-- given with their values, and floats stand for themselves.
pub mod Attributes
use go_dev_sdk.Prelude.{
  ℕ, ◌-◌, ◌^◌, ltb, leb, Bool, true, false, ◌&&◌, ◌||◌, not, ◌==◌, List, [], ◌∷◌, ◌++◌, Option,
  none, some, Bytes, codes, eq_bytes, itoa, if◌then◌else◌,
}
use go_dev_sdk.Prelude.Int.{ℤ, pos}
use go_dev_sdk.Observability.Key.{normalize_key, is_valid_key}

-- What attribute.Value holds.
pub data Attr : Type 0 where
  text : Bytes → Attr
  int64 : ℤ → Attr
  float64 : ℕ → Attr
  boolean : Bool → Attr
  texts : List Bytes → Attr
  float64s : List ℕ → Attr
  booleans : List Bool → Attr

-- The cases of the type switch: `signed` are the signed types and uint8 to uint32, and Duration;
-- `unsigned` are uint and uint64; `described` is an error or a Stringer, and none a typed nil one;
-- `key_value` is an attribute.KeyValue.
pub data Value : Type 0 where
  plain : Attr → Value
  signed : ℤ → Value
  unsigned : ℕ → Value
  described : Option Bytes → Value
  key_value : Bytes → Attr → Value
  nil : Value
  printed : Bytes → Value

abbrev pub max_int64 : ℕ
max_int64 = 9223372036854775807

abbrev pub described_text : Option Bytes → Option Attr
described_text none = none
described_text (some t) = some (text t)

-- The value under a key of its own, or none where it is left out.
unfoldable pub convert_value : Value → Option Attr
convert_value (plain a) = some a
convert_value (signed n) = some (int64 n)
convert_value (unsigned n) = some (if leb n max_int64 then int64 (pos n) else text (itoa n))
convert_value (described t) = described_text t
convert_value (key_value k a) = none
convert_value nil = none
convert_value (printed t) = some (text t)

unfoldable pub less : Bytes → Bytes → Bool
less [] [] = false
less [] (_ ∷ _) = true
less (_ ∷ _) [] = false
less (x ∷ s) (y ∷ t) = ltb x y || (x == y && less s t)

-- `merged[k] = v`, in a map kept in the order of its keys.
unfoldable pub put : Bytes → Value → List (Bytes × Value) → List (Bytes × Value)
unfolding less
put k v [] = (k, v) ∷ []
put k v ((l, w) ∷ m) =
    let rest = put k v m in
    if eq_bytes k l then (k, v) ∷ m else if less k l then (k, v) ∷ (l, w) ∷ m else (l, w) ∷ rest

unfoldable pub merge_one : List (Bytes × Value) → List (Bytes × Value) → List (Bytes × Value)
unfolding put
merge_one [] merged = merged
merge_one ((k, v) ∷ m) merged = merge_one m (put (normalize_key k) v merged)

unfoldable pub merge_all : List (List (Bytes × Value)) → List (Bytes × Value) → List (Bytes × Value)
unfolding merge_one
merge_all [] merged = merged
merge_all (m ∷ ms) merged = merge_all ms (merge_one m merged)

abbrev pub keyed : Bytes → Option Attr → List (Bytes × Attr)
keyed k none = []
keyed k (some a) = (k, a) ∷ []

-- One round of the loop over the merged map.
unfoldable pub entry : Bytes → Value → List (Bytes × Attr)
unfolding convert_value
entry k (key_value l a) = if is_valid_key l then (l, a) ∷ [] else []
entry k (plain a) = if is_valid_key k then (k, a) ∷ [] else []
entry k (signed n) = if is_valid_key k then keyed k (convert_value (signed n)) else []
entry k (unsigned n) = if is_valid_key k then keyed k (convert_value (unsigned n)) else []
entry k (described t) = if is_valid_key k then keyed k (convert_value (described t)) else []
entry k nil = []
entry k (printed t) = if is_valid_key k then keyed k (convert_value (printed t)) else []

unfoldable pub entries : List (Bytes × Value) → List (Bytes × Attr)
unfolding entry
entries [] = []
entries ((k, v) ∷ m) = entry k v ++ entries m

-- slices.SortStableFunc by the key.
unfoldable pub insert : Bytes × Attr → List (Bytes × Attr) → List (Bytes × Attr)
unfolding less
insert (k, a) [] = (k, a) ∷ []
insert (k, a) ((l, b) ∷ m) =
    let rest = insert (k, a) m in if less l k then (l, b) ∷ rest else (k, a) ∷ (l, b) ∷ m

unfoldable pub sort : List (Bytes × Attr) → List (Bytes × Attr)
unfolding insert
sort [] = []
sort (e ∷ m) = insert e (sort m)

unfoldable pub convert_maps_to_kvs : List (List (Bytes × Value)) → List (Bytes × Attr)
unfolding merge_all entries sort
convert_maps_to_kvs ms = sort (entries (merge_all ms []))
