-- ===== src/Observability/Convert/Attributes.antt =====
-- observability/attributes/attributes.go: which attributes come out.
use go_dev_sdk.Prelude.{
  ℕ, ◌≤◌, ◌≡◌, refl, inl, inr, true, false, leb, Bool-cases, List, [], ◌∷◌, none, some, Bytes,
  eq_bytes, arith, if◌then◌else◌, All, All-append,
}
use go_dev_sdk.Prelude.Int.{pos, negsuc}
use go_dev_sdk.Observability.Key.{normalize_key, is_valid_key}
use go_dev_sdk.Observability.Convert.{
  Attr, text, int64, float64, boolean, texts, float64s, booleans, Value, plain, signed, unsigned,
  described, key_value, nil, printed, max_int64, convert_value, less, put, merge_one, merge_all,
  entry, entries, insert, sort, convert_maps_to_kvs,
}

-- An int64 attribute is one.
abbrev pub IsInRange : Attr → Type 0
IsInRange (int64 (pos n)) = n ≤ max_int64
IsInRange (int64 (negsuc n)) = n ≤ max_int64
IsInRange (text _) = Unit
IsInRange (float64 _) = Unit
IsInRange (boolean _) = Unit
IsInRange (texts _) = Unit
IsInRange (float64s _) = Unit
IsInRange (booleans _) = Unit

-- A value of its Go type: a signed one is an int64.
abbrev pub IsGo : Value → Type 0
IsGo (plain a) = IsInRange a
IsGo (signed n) = IsInRange (int64 n)
IsGo (unsigned n) = Unit
IsGo (described _) = Unit
IsGo (key_value _ a) = IsInRange a
IsGo nil = Unit
IsGo (printed _) = Unit

abbrev pub IsGood : Bytes × Attr → Type 0
IsGood (k, a) = (is_valid_key k ≡ true) × IsInRange a

one-AllGood :
    (k : Bytes) (a : Attr) → IsInRange a → All IsGood (if is_valid_key k then (k, a) ∷ [] else [])
one-AllGood k a r = elim (Bool-cases (is_valid_key k)) [
  | inl e ↦ rw e ((e, r), tt)
  | inr e ↦ rw e tt
]

unsigned_range : (n : ℕ) (t : Bytes) → IsInRange (if leb n max_int64 then int64 (pos n) else text t)
unsigned_range n t = elim (Bool-cases (leb n max_int64)) [
  | inl e ↦ rw e (ground (arith, e))
  | inr e ↦ rw e tt
]

entry-AllGood : (k : Bytes) (v : Value) → IsGo v → All IsGood (entry k v)
unfolding entry convert_value
entry-AllGood k (key_value l a) r = one-AllGood l a r
entry-AllGood k (plain a) r = one-AllGood k a r
entry-AllGood k (signed n) r = one-AllGood k (int64 n) r
entry-AllGood k (unsigned n) r = one-AllGood k _ (unsigned_range n _)
entry-AllGood k (described none) r = elim (Bool-cases (is_valid_key k)) [
  | inl e ↦ rw e tt
  | inr e ↦ rw e tt
]
entry-AllGood k (described (some t)) r = one-AllGood k (text t) tt
entry-AllGood k nil r = tt
entry-AllGood k (printed t) r = one-AllGood k (text t) tt

abbrev AllGo : List (Bytes × Value) → Type 0
AllGo = All (λ (e : Bytes × Value). IsGo e.1)

entries-AllGood : (m : List (Bytes × Value)) → AllGo m → All IsGood (entries m)
unfolding entries
entries-AllGood [] h = tt
entries-AllGood ((k, v) ∷ m) h =
    All-append IsGood (entry k v) (entries m) (entry-AllGood k v h.0) (entries-AllGood m h.1)

put-AllGo :
    (k : Bytes) (v : Value) (m : List (Bytes × Value)) → IsGo v → AllGo m → AllGo (put k v m)
unfolding put
put-AllGo k v [] r h = (r, tt)
put-AllGo k v ((l, w) ∷ m) r h = elim (Bool-cases (eq_bytes k l)) [
  | inl e ↦ rw (e, put) (r, h.1)
  | inr e ↦ elim (Bool-cases (less k l)) [
    | inl f ↦ rw (e, f, put) (r, h)
    | inr f ↦ rw (e, f, put) (h.0, put-AllGo k v m r h.1)
  ]
]

merge_one-AllGo : (m acc : List (Bytes × Value)) → AllGo m → AllGo acc → AllGo (merge_one m acc)
unfolding merge_one
merge_one-AllGo [] acc h g = g
merge_one-AllGo ((k, v) ∷ m) acc h g =
    merge_one-AllGo m (put (normalize_key k) v acc) h.1 (put-AllGo (normalize_key k) v acc h.0 g)

merge_all-AllGo :
    (ms : List (List (Bytes × Value))) (acc : List (Bytes × Value))
    → All AllGo ms
    → AllGo acc
    → AllGo (merge_all ms acc)
unfolding merge_all
merge_all-AllGo [] acc h g = g
merge_all-AllGo (m ∷ ms) acc h g =
    merge_all-AllGo ms (merge_one m acc) h.1 (merge_one-AllGo m acc h.0 g)

insert-AllGood :
    (e : Bytes × Attr) (m : List (Bytes × Attr)) → IsGood e → All IsGood m → All IsGood (insert e m)
unfolding insert
insert-AllGood (k, a) [] r h = (r, tt)
insert-AllGood (k, a) ((l, b) ∷ m) r h = elim (Bool-cases (less l k)) [
  | inl e ↦ rw (e, insert) (h.0, insert-AllGood (k, a) m r h.1)
  | inr e ↦ rw (e, insert) (r, h)
]

sort-AllGood : (m : List (Bytes × Attr)) → All IsGood m → All IsGood (sort m)
unfolding sort
sort-AllGood [] h = tt
sort-AllGood (e ∷ m) h = insert-AllGood e (sort m) h.0 (sort-AllGood m h.1)

-- No key of an attribute is below the one before it.
abbrev pub IsAtLeast : Bytes → List (Bytes × Attr) → Type 0
IsAtLeast k [] = Unit
IsAtLeast k ((l, _) ∷ _) = less l k ≡ false

abbrev pub IsSorted : List (Bytes × Attr) → Type 0
IsSorted [] = Unit
IsSorted ((k, a) ∷ m) = IsAtLeast k m × IsSorted m

less_asym : (s t : Bytes) → less s t ≡ true → less t s ≡ false
unfolding less
less_asym [] [] h = refl
less_asym [] (y ∷ t) h = refl
less_asym (x ∷ s) [] h = cc
less_asym (x ∷ s) (y ∷ t) h = ground (arith, h, less_asym s t)

insert-IsAtLeast :
    (l k : Bytes) (a : Attr) (m : List (Bytes × Attr))
    → less k l ≡ false
    → IsAtLeast l m
    → IsAtLeast l (insert (k, a) m)
unfolding insert
insert-IsAtLeast l k a [] h g = h
insert-IsAtLeast l k a ((j, b) ∷ m) h g = elim (Bool-cases (less j k)) [
  | inl e ↦ rw (e, insert) g
  | inr e ↦ rw (e, insert) h
]

insert-IsSorted :
    (k : Bytes) (a : Attr) (m : List (Bytes × Attr)) → IsSorted m → IsSorted (insert (k, a) m)
unfolding insert
insert-IsSorted k a [] s = (tt, tt)
insert-IsSorted k a ((l, b) ∷ m) s = elim (Bool-cases (less l k)) [
  | inl e ↦
      rw (e, insert) (insert-IsAtLeast l k a m (less_asym l k e) s.0, insert-IsSorted k a m s.1)
  | inr e ↦ rw (e, insert) (e, s)
]

sort-IsSorted : (m : List (Bytes × Attr)) → IsSorted (sort m)
unfolding sort
sort-IsSorted [] = tt
sort-IsSorted ((k, a) ∷ m) = insert-IsSorted k a (sort m) (sort-IsSorted m)

-- Of any maps with values of their Go types the attributes come sorted by their keys, and each has a
-- valid key and, where it is an integer, one that fits an int64.
pub convert_maps_to_kvs-IsSorted :
    (ms : List (List (Bytes × Value)))
    → All AllGo ms
    → IsSorted (convert_maps_to_kvs ms) × All IsGood (convert_maps_to_kvs ms)
unfolding convert_maps_to_kvs
convert_maps_to_kvs-IsSorted ms h = (
  sort-IsSorted (entries (merge_all ms [])),
  sort-AllGood (entries (merge_all ms []))
      (entries-AllGood (merge_all ms []) (merge_all-AllGo ms [] h tt)),
)
