-- ===== src/Nats/Stream/Settled.antt =====
-- nats/internal/wire/wire.go: when `PatchStream` refuses, and when it changes nothing.
use go_dev_sdk.Prelude.{
  ◌≡◌, ◌≢◌, ◌↔◌, refl, sym, ap₂, ◌∙◌, inl, inr, Bool, true, false, ◌||◌, not, Bool-cases,
  Option-cases, List, [], ◌∷◌, ◌++◌, none, Bytes, arith,
}
use go_dev_sdk.Nats.Subject.{covers}
use go_dev_sdk.Nats.Subject.Matching.{covers_trans, covers_self}
use go_dev_sdk.Nats.Stream.{
  StreamConfig, discard_old, sdk_subjects, schedule_incompatibility, any_covers, delete_covered,
  add_subjects, patch_stream, patched,
}

any_covers-append :
    (es : List Bytes) (s a : Bytes) → any_covers (es ++ s ∷ []) a ≡ (any_covers es a || covers s a)
unfolding any_covers
any_covers-append [] s a = ground arith
any_covers-append (e ∷ es) s a = ground (arith, any_covers-append es s a)

-- A subject that one of the deleted covered, the new one covers.
delete_covered-covers :
    (s : Bytes) (es : List Bytes) (a : Bytes)
    → any_covers es a ≡ true
    → (any_covers (delete_covered s es) a || covers s a) ≡ true
unfolding any_covers delete_covered
delete_covered-covers s [] a h = cc
delete_covered-covers s (e ∷ es) a h =
    ground (arith, delete_covered-covers s es a, covers_trans s e a)

add_subjects-keeps :
    (ss es : List Bytes) (changed : Bool) (a : Bytes)
    → any_covers es a ≡ true
    → any_covers (add_subjects ss es changed).0 a ≡ true
unfolding add_subjects
add_subjects-keeps [] es changed a h = h
add_subjects-keeps (s ∷ ss) es changed a h = elim (Bool-cases (any_covers es s)) [
  | inl c ↦ rw (c, add_subjects) (add_subjects-keeps ss es changed a h)
  | inr c ↦
      rw (c, add_subjects)
        (add_subjects-keeps ss _ true a
          (any_covers-append (delete_covered s es) s a ∙ delete_covered-covers s es a h))
]

unfoldable AllCovered : List Bytes → List Bytes → Type 0
AllCovered es [] = Unit
AllCovered es (s ∷ ss) = (any_covers es s ≡ true) × AllCovered es ss

both_covered :
    (es : List Bytes) (s : Bytes) (ss : List Bytes)
    → any_covers es s ≡ true
    → AllCovered es ss
    → AllCovered es (s ∷ ss)
unfolding AllCovered
both_covered es s ss h hs = (h, hs)

new_covered : (es : List Bytes) (s : Bytes) → any_covers (es ++ s ∷ []) s ≡ true
new_covered es s = ground (arith, any_covers-append es s s, covers_self s)

add_kept :
    (s : Bytes) (ss es : List Bytes) (changed : Bool)
    → any_covers es s ≡ true
    → add_subjects (s ∷ ss) es changed ≡ add_subjects ss es changed
unfolding add_subjects
add_kept s ss es changed c = rw (c, add_subjects) refl

add_new :
    (s : Bytes) (ss es : List Bytes) (changed : Bool)
    → any_covers es s ≡ false
    → add_subjects (s ∷ ss) es changed ≡ add_subjects ss (delete_covered s es ++ s ∷ []) true
unfolding add_subjects
add_new s ss es changed c = rw (c, add_subjects) refl

none_covered : (es : List Bytes) → AllCovered es []
unfolding AllCovered
none_covered es = tt

add_subjects-AllCovered :
    (ss es : List Bytes) (changed : Bool) → AllCovered (add_subjects ss es changed).0 ss
add_subjects-AllCovered [] es changed = none_covered _
add_subjects-AllCovered (s ∷ ss) es changed = elim (Bool-cases (any_covers es s)) [
  | inl c ↦ rw (add_kept s ss es changed c) (
      both_covered _ s ss (add_subjects-keeps ss es changed s c)
        (add_subjects-AllCovered ss es changed))
  | inr c ↦ rw (add_new s ss es changed c) (
      both_covered _ s ss (add_subjects-keeps ss _ true s (new_covered (delete_covered s es) s))
        (add_subjects-AllCovered ss _ true))
]

covered_same :
    (ss es : List Bytes) (changed : Bool)
    → AllCovered es ss
    → add_subjects ss es changed ≡ (es, changed)
unfolding add_subjects AllCovered
covered_same [] es changed h = refl
covered_same (s ∷ ss) es changed h = rw (h.0, add_subjects) (covered_same ss es changed h.1)

patched_covered :
    (d : StreamConfig) (topic : Bytes)
    → schedule_incompatibility d ≡ none
    → d.allow_msg_schedules ≡ true
    → AllCovered d.subjects (sdk_subjects topic)
    → patch_stream d topic ≡ (d, false, none)
unfolding patch_stream
patched_covered d topic ok on all =
    rw (ok, covered_same (sdk_subjects topic) d.subjects false all, patch_stream)
      (ap₂ (λ (a b : Bool). (record d { allow_msg_schedules = a }, not b, none)) (sym on) on)

-- A second patch changes nothing and says so.
pub patch_stream_twice :
    (c : StreamConfig) (topic : Bytes)
    → let d = (patch_stream c topic).0 in
      schedule_incompatibility c ≡ none → patch_stream d topic ≡ (d, false, none)
unfolding patch_stream schedule_incompatibility
patch_stream_twice c topic ok =
    rw (ok, patch_stream)
      (patched_covered _ topic ok refl
        (add_subjects-AllCovered (sdk_subjects topic) c.subjects false))

add_subjects-changed : (ss es : List Bytes) → (add_subjects ss es true).1 ≡ true
unfolding add_subjects
add_subjects-changed [] es = refl
add_subjects-changed (s ∷ ss) es =
    ground
      (arith, add_subjects-changed ss es, add_subjects-changed ss (delete_covered s es ++ s ∷ []))

add_subjects-unchanged :
    (ss es : List Bytes) (changed : Bool)
    → (add_subjects ss es changed).1 ≡ false
    → (add_subjects ss es changed).0 ≡ es
unfolding add_subjects
add_subjects-unchanged [] es changed h = refl
add_subjects-unchanged (s ∷ ss) es changed h = elim (Bool-cases (any_covers es s)) [
  | inl c ↦ rw (c, add_subjects) (add_subjects-unchanged ss es changed (rw (c, add_subjects) at h))
  | inr c ↦ absurd (
      let on = add_subjects-changed ss (delete_covered s es ++ s ∷ []) in
      let off = rw (c, add_subjects) at h in cc)
]

abbrev pub IsCompatible : StreamConfig → Type 0
IsCompatible c =
    (c.deny_purge ≡ false)
    × (c.discard ≡ discard_old)
    × (c.mirror ≡ none)
    × (c.sources ≡ [])
    × (c.allow_msg_counter ≡ false)

IsCompatible-iff : (c : StreamConfig) → (schedule_incompatibility c ≡ none) ↔ IsCompatible c
unfolding schedule_incompatibility
IsCompatible-iff c = ground arith

patched_unchanged :
    (c : StreamConfig) (r : List Bytes × Bool)
    → (r.1 ≡ false → r.0 ≡ c.subjects)
    → (patched c r).1 ≡ false
    → (patched c r).0 ≡ c
patched_unchanged c (subjects, changed) same h =
    ap₂ (λ (s : List Bytes) (b : Bool). record c { subjects = s; allow_msg_schedules = b })
      (same (ground arith)) (ground arith)

-- A patch is refused exactly for a config with one of the settings that the server rejects together
-- with schedules, and then leaves it as it is; a patch that is not refused turns schedules on; and one
-- that reports no change has made none.
pub patch_stream-cases :
    (c : StreamConfig) (topic : Bytes)
    → let r = patch_stream c topic in
      ((r.2 ≡ none) ↔ IsCompatible c)
      × (r.2 ≢ none → r.0 ≡ c)
      × (r.2 ≡ none → r.0.allow_msg_schedules ≡ true)
      × (r.1 ≡ false → r.0 ≡ c)
unfolding patch_stream
patch_stream-cases c topic = elim (Option-cases (schedule_incompatibility c)) [
  | inl ok ↦
      rw (ok, patch_stream)
        (
          (λ _. (IsCompatible-iff c).0 ok, λ _. refl),
          (λ h. absurd (h refl)),
          (λ _. refl),
          (λ h.
              patched_unchanged c _ (add_subjects-unchanged (sdk_subjects topic) c.subjects false)
                h),
        )
  | inr (bad, e) ↦
      rw (e, patch_stream)
        (
          (λ h. cc, λ h. let f = (IsCompatible-iff c).1 h in cc),
          (λ _. refl),
          (λ h. cc),
          (λ _. refl),
        )
]
