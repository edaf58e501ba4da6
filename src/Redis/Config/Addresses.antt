-- ===== src/Redis/Config/Addresses.antt =====
-- redis/config.go: the addresses after the defaults.
use go_dev_sdk.Prelude.{
  join_host_port, ap₂, ==_iff, is_space, trim_left, ℕ, ◌≡◌, refl, ap, ◌∙◌, inl, inr, Bool, true,
  false, ◌||◌, ◌==◌, Bool-cases, List, [], ◌∷◌, ◌++◌, Bytes, codes, eq_bytes, is_empty, trim_space,
  contains_byte, arith, All,
}
use mathlib.Core.List.{reverse, reverse-cons}
use go_dev_sdk.Prelude.Int.{ℤ}
use go_dev_sdk.Redis.Config.{sentinel, with_port, with_ports}

contains-append :
    (b : ℕ) (s t : Bytes) → contains_byte b (s ++ t) ≡ (contains_byte b s || contains_byte b t)
unfolding contains_byte
contains-append b [] t = refl
contains-append b (c ∷ s) t = ground (arith, contains-append b s t)

contains-reverse : (b : ℕ) (s : Bytes) → contains_byte b (reverse s) ≡ contains_byte b s
unfolding contains_byte
contains-reverse b [] = refl
contains-reverse b (c ∷ s) =
    ap (contains_byte b) (reverse-cons c s)
    ∙ contains-append b (reverse s) (c ∷ [])
    ∙ ground (arith, contains-reverse b s)

contains-trim_left :
    (b : ℕ) (s : Bytes) → is_space b ≡ false → contains_byte b (trim_left s) ≡ contains_byte b s
unfolding contains_byte trim_left
contains-trim_left b [] h = refl
contains-trim_left b (c ∷ s) h = elim (Bool-cases (is_space c)) [
  | inl e ↦ elim (Bool-cases (c == b)) [
    | inl same ↦ let bad : is_space c ≡ false = ap is_space ((==_iff c b).0 same) ∙ h in absurd (cc)
    | inr other ↦ rw (e, other, trim_left) (contains-trim_left b s h)
  ]
  | inr e ↦ rw (e, trim_left) refl
]

contains-trim_space :
    (b : ℕ) (s : Bytes) → is_space b ≡ false → contains_byte b (trim_space s) ≡ contains_byte b s
unfolding trim_space
contains-trim_space b s h =
    contains-reverse b (trim_left (reverse (trim_left s)))
    ∙ contains-trim_left b (reverse (trim_left s)) h
    ∙ contains-reverse b (trim_left s)
    ∙ contains-trim_left b s h

colon_is_no_space : is_space b':' ≡ false
unfolding is_space
colon_is_no_space = refl

join_has_colon : (host port : Bytes) → contains_byte b':' (join_host_port host port) ≡ true
unfolding join_host_port contains_byte
join_has_colon host port = elim (Bool-cases (contains_byte b':' host)) [
  | inl e ↦
      rw (e, join_host_port) (ground (arith, contains-append b':' host (codes "]:" ++ port), e))
  | inr e ↦ rw (e, join_host_port) (ground (arith, contains-append b':' host (codes ":" ++ port)))
]

-- Blank, or with a colon: an address that the loop leaves as it is.
abbrev pub is_complete : Bytes → Bool
is_complete a = is_empty (trim_space a) || contains_byte b':' (trim_space a)

pub join_complete : (host port : Bytes) → is_complete (join_host_port host port) ≡ true
join_complete host port =
    let colon : contains_byte b':' (trim_space (join_host_port host port)) ≡ true =
      contains-trim_space b':' (join_host_port host port) colon_is_no_space
      ∙ join_has_colon host port in
    ground (arith, colon)

with_port_complete :
    (mode : Bytes) (port : ℤ) (a : Bytes) → is_complete (with_port mode port a) ≡ true
unfolding with_port
with_port_complete mode port a = elim (Bool-cases (is_complete a)) [
  | inl e ↦ rw (e, with_port) e
  | inr e ↦ elim (Bool-cases (eq_bytes mode sentinel)) [
    | inl s ↦ rw (e, s, with_port) (join_complete (trim_space a) _)
    | inr s ↦ rw (e, s, with_port) (join_complete (trim_space a) _)
  ]
]

abbrev pub AllComplete : List Bytes → Type 0
AllComplete = All (λ (a : Bytes). is_complete a ≡ true)

pub with_ports_complete :
    (mode : Bytes) (port : ℤ) (l : List Bytes) → AllComplete (with_ports mode port l)
unfolding with_ports
with_ports_complete mode port [] = tt
with_ports_complete mode port (a ∷ l) =
    (with_port_complete mode port a, with_ports_complete mode port l)

with_port_keeps :
    (mode : Bytes) (port : ℤ) (a : Bytes) → is_complete a ≡ true → with_port mode port a ≡ a
unfolding with_port
with_port_keeps mode port a e = rw (e, with_port) refl

pub with_ports_keep :
    (mode : Bytes) (port : ℤ) (l : List Bytes) → AllComplete l → with_ports mode port l ≡ l
unfolding with_ports
with_ports_keep mode port [] h = refl
with_ports_keep mode port (a ∷ l) h =
    ap₂ (◌∷◌) (with_port_keeps mode port a h.0) (with_ports_keep mode port l h.1)
