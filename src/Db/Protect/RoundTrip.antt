-- ===== src/Db/Protect/RoundTrip.antt =====
-- db/bind.go: what was hidden comes back.
use go_dev_sdk.Prelude.{
  ℕ, suc, ◌+◌, ◌≤◌, ◌&&◌, ◌<◌, ◌≡◌, ◌≢◌, refl, sym, ap, ap₂, ◌∙◌, inl, inr, [], ◌∷◌, ◌++◌,
  append_assoc, arith, Bytes, codes, byte_at, length, take, slice, take-slice, take_all, take-suc,
  ltb, ltb→lt, ◌==◌, if◌then◌else◌, After, loop_inv, replace_byte, replace_pair, Bool-cases, All,
}
use go_dev_sdk.Db.Driver.{Dialect}
use go_dev_sdk.Db.Scan.{literal_end}
use go_dev_sdk.Db.Scan.Bounds.{literal_end-le}
use go_dev_sdk.Db.Protect.{
  protect_casts, protect_stray_colons, protect_colons_step, protect_colons, protect, restore,
}

-- The restored text, byte by byte.
reveal : ℕ → Bytes
reveal c = if c == 0 then codes "::" else if c == 1 then codes ":" else c ∷ []

restored : Bytes → Bytes
restored [] = []
restored (c ∷ s) = reveal c ++ restored s

restore-restored : (s : Bytes) → restore s ≡ restored s
unfolding restore restored reveal replace_byte
restore-restored [] = refl
restore-restored (c ∷ s) = ground (arith, restore-restored s)

restored-append : (s t : Bytes) → restored (s ++ t) ≡ restored s ++ restored t
unfolding restored
restored-append [] t = refl
restored-append (c ∷ s) t =
    rw (restored-append s t) (sym (append_assoc (reveal c) (restored s) (restored t)))

restored-protect_stray_colons : (s : Bytes) → restored (protect_stray_colons s) ≡ restored s
unfolding restored reveal protect_stray_colons
restored-protect_stray_colons [] = refl
restored-protect_stray_colons (c ∷ s) = ground (arith, restored-protect_stray_colons s)

restored-replace_byte : (s : Bytes) → restored (replace_byte b':' (1 ∷ []) s) ≡ restored s
unfolding restored reveal replace_byte
restored-replace_byte [] = refl
restored-replace_byte (c ∷ s) = ground (arith, restored-replace_byte s)

module _ (q : Bytes) (d : Dialect) where
  abbrev Kept : ℕ → Bytes → Type 0
  Kept i out = (i ≤ length q) × (restored out ≡ restored (take i q))

  protect_colons_step-After :
      (i : ℕ) (out : Bytes)
      → i < length q
      → Kept i out
      → After Kept (λ out. restored out ≡ restored q) i (protect_colons_step q d i out)
  unfolding protect_colons_step
  protect_colons_step-After i out lt (le, e) = elim (Bool-cases (ltb i (literal_end q i d))) [
    | inl jump ↦
        rw (jump, protect_colons_step)
          (
            ltb→lt i _ jump,
            (
              (literal_end-le q i d lt).1,
              segment (literal_end q i d) (omega (arith, ltb→lt i _ jump)),
            ),
          )
    | inr copy ↦
        rw (copy, protect_colons_step)
          (
            omega arith,
            (
              omega arith,
              restored-append out _
                  ∙ ap (λ (t : Bytes). t ++ restored (byte_at q i ∷ [])) e
                  ∙ sym (restored-append (take i q) _)
                  ∙ ap restored (sym (take-suc i q 256 lt))
                  ∙ ap (λ (n : ℕ). restored (take n q)) (let e : suc i ≡ i + 1 = omega arith in e),
            ),
          )
  ]
    where
      segment :
          (end : ℕ)
          → i ≤ end
          → restored (out ++ replace_byte b':' (1 ∷ []) (slice i end q)) ≡ restored (take end q)
      segment end h =
          restored-append out _
          ∙ ap₂ ◌++◌ e (restored-replace_byte (slice i end q))
          ∙ sym (restored-append (take i q) (slice i end q))
          ∙ ap restored (take-slice i end q h)

  restored-protect_colons : restored (protect_colons q d) ≡ restored q
  unfolding protect_colons
  restored-protect_colons =
      loop_inv (length q) (λ out. out) (protect_colons_step q d) Kept
        (λ out. restored out ≡ restored q) protect_colons_step-After
        (λ i out end k. k.1 ∙ ap restored (take_all i q end)) (length q) 0 [] (omega arith)
        (omega arith, refl)

-- The query text holds neither sentinel byte.
abbrev pub NoSentinels : Bytes → Type 0
NoSentinels = All (λ c. (c ≢ 0) × (c ≢ 1))

reveal_plain : (c : ℕ) → (c ≢ 0) × (c ≢ 1) → reveal c ≡ c ∷ []
unfolding reveal
reveal_plain c h = ground arith

restored-protect_casts : (q : Bytes) → NoSentinels q → restored (protect_casts q) ≡ q
unfolding restored protect_casts replace_pair reveal
restored-protect_casts [] h = refl
restored-protect_casts (x ∷ []) h = ground arith
restored-protect_casts (x ∷ y ∷ s) h = elim (Bool-cases (x == b':' && y == b':')) [
  | inl cast ↦ rw (cast, replace_pair) (ground (arith, restored-protect_casts s h.1.1))
  | inr plain ↦
      rw (plain, replace_pair) (cc (reveal_plain x h.0, restored-protect_casts (y ∷ s) h.1))
]

-- Of a query that holds neither sentinel byte nothing is lost: the protected text is restored to the
-- query, whatever the literals, casts and stray colons in it.
pub restore-protect : (q : Bytes) (d : Dialect) → NoSentinels q → restore (protect q d) ≡ q
unfolding protect
restore-protect q d h =
    restore-restored (protect q d)
    ∙ restored-protect_stray_colons (protect_colons (protect_casts q) d)
    ∙ restored-protect_colons (protect_casts q) d
    ∙ restored-protect_casts q h
