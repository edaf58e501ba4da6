-- ===== src/Nats/Stream/Patching.antt =====
-- nats/internal/wire/wire.go: which messages a patched stream takes.
use go_dev_sdk.Prelude.{
  ◌≡◌, refl, inl, inr, Bool, true, false, ◌||◌, Bool-cases, List, [], ◌∷◌, ◌++◌, none, Bytes,
  split_at, arith,
}
use go_dev_sdk.Nats.Subject.{covers}
use go_dev_sdk.Nats.Subject.Matching.{matches, covers_iff}
use go_dev_sdk.Nats.Stream.{
  StreamConfig, sdk_subjects, schedule_incompatibility, any_covers, delete_covered, add_subjects,
  patch_stream,
}

-- A stream of these subjects takes the message of the subject with tokens t.
unfoldable pub accepts : List Bytes → List Bytes → Bool
accepts [] t = false
accepts (e ∷ es) t = matches (split_at b'.' e) t || accepts es t

covers-matches :
    (a b : Bytes) (t : List Bytes)
    → covers a b ≡ true
    → matches (split_at b'.' b) t ≡ true
    → matches (split_at b'.' a) t ≡ true
covers-matches a b t c = (covers_iff a b).0 c t

accepts-append :
    (es : List Bytes) (s : Bytes) (t : List Bytes)
    → accepts (es ++ s ∷ []) t ≡ (accepts es t || matches (split_at b'.' s) t)
unfolding accepts
accepts-append [] s t = ground arith
accepts-append (e ∷ es) s t = ground (arith, accepts-append es s t)

-- Whatever a deleted subject took, the new one takes.
delete_covered-accepts :
    (s : Bytes) (es : List Bytes) (t : List Bytes)
    → (accepts (delete_covered s es) t || matches (split_at b'.' s) t)
      ≡ (accepts es t || matches (split_at b'.' s) t)
unfolding accepts delete_covered
delete_covered-accepts s [] t = refl
delete_covered-accepts s (e ∷ es) t =
    ground (arith, delete_covered-accepts s es t, covers-matches s e t)

any_covers-accepts :
    (es : List Bytes) (s : Bytes) (t : List Bytes)
    → any_covers es s ≡ true
    → matches (split_at b'.' s) t ≡ true
    → accepts es t ≡ true
unfolding accepts any_covers
any_covers-accepts [] s t c h = cc
any_covers-accepts (e ∷ es) s t c h =
    ground (arith, any_covers-accepts es s t, covers-matches e s t)

add_subjects-accepts :
    (ss es : List Bytes) (changed : Bool) (t : List Bytes)
    → accepts (add_subjects ss es changed).0 t ≡ (accepts es t || accepts ss t)
unfolding accepts add_subjects
add_subjects-accepts [] es changed t = ground arith
add_subjects-accepts (s ∷ ss) es changed t = elim (Bool-cases (any_covers es s)) [
  | inl c ↦
      rw (c, add_subjects)
        (ground (arith, add_subjects-accepts ss es changed t, any_covers-accepts es s t c))
  | inr c ↦
      rw (c, add_subjects)
        (ground (
          arith,
          add_subjects-accepts ss (delete_covered s es ++ s ∷ []) true t,
          accepts-append (delete_covered s es) s t,
          delete_covered-accepts s es t,
        ))
]

-- A stream that can take schedules takes, once patched, what it took before and what the topic's layout
-- takes, and nothing else.
pub patch_stream-accepts :
    (c : StreamConfig) (topic : Bytes) (t : List Bytes)
    → schedule_incompatibility c ≡ none
    → accepts (patch_stream c topic).0.subjects t
      ≡ (accepts c.subjects t || accepts (sdk_subjects topic) t)
unfolding patch_stream
patch_stream-accepts c topic t ok =
    rw (ok, patch_stream) (add_subjects-accepts (sdk_subjects topic) c.subjects false t)
