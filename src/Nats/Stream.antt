-- ===== src/Nats/Stream.antt =====
-- nats/internal/wire/wire.go: `StreamConfig`, `scheduleIncompatibility` and `PatchStream`. Of the
-- server's stream settings those are kept that these functions read or write.
pub mod Patching
pub mod Settled
use go_dev_sdk.Prelude.{
  ℕ, ltb, Bool, true, false, ◌&&◌, ◌||◌, not, List, [], ◌∷◌, ◌++◌, Option, none, some, Bytes, codes,
  eq_bytes, if◌then◌else◌,
}
use go_dev_sdk.Nats.Subject.{covers, data_subjects, schedule_wildcard}

pub data DiscardPolicy : Type 0 where
  discard_old discard_new : DiscardPolicy

pub record StreamConfig : Type 0 where
  pub name : Bytes
  pub subjects : List Bytes
  pub allow_msg_schedules : Bool
  pub deny_purge : Bool
  pub discard : DiscardPolicy
  pub mirror : Option Bytes
  pub sources : List Bytes
  pub allow_msg_counter : Bool

unfoldable pub sdk_subjects : Bytes → List Bytes
unfolding data_subjects schedule_wildcard
sdk_subjects topic = data_subjects topic ++ schedule_wildcard topic ∷ []

unfoldable pub stream_config : Bytes → StreamConfig
unfolding sdk_subjects
stream_config topic = record {
  name = topic;
  subjects = sdk_subjects topic;
  allow_msg_schedules = true;
  deny_purge = false;
  discard = discard_old;
  mirror = none;
  sources = [];
  allow_msg_counter = false;
}

pub data Incompatible : Type 0 where
  denies_purge discards_new mirrors has_sources counts : Incompatible

abbrev is_discard_new : DiscardPolicy → Bool
is_discard_new discard_old = false
is_discard_new discard_new = true

abbrev is_set {ℓ} : {A : Type ℓ} → Option A → Bool
is_set none = false
is_set (some _) = true

abbrev is_not_nil {ℓ} : {A : Type ℓ} → List A → Bool
is_not_nil [] = false
is_not_nil (_ ∷ _) = true

unfoldable pub schedule_incompatibility : StreamConfig → Option Incompatible
schedule_incompatibility c =
    if c.deny_purge
    then some denies_purge
    else if is_discard_new c.discard
    then some discards_new
    else if is_set c.mirror
    then some mirrors
    else if is_not_nil c.sources
    then some has_sources
    else if c.allow_msg_counter
    then some counts
    else none

-- `slices.ContainsFunc(subjects, covers(_, s))`.
unfoldable pub any_covers : List Bytes → Bytes → Bool
any_covers [] s = false
any_covers (e ∷ es) s = covers e s || any_covers es s

-- `slices.DeleteFunc(subjects, covers(s, _))`.
unfoldable pub delete_covered : Bytes → List Bytes → List Bytes
delete_covered s [] = []
delete_covered s (e ∷ es) = let rest = delete_covered s es in if covers s e then rest else e ∷ rest

-- The loop over the SDK's subjects: the subjects of the stream, and whether anything changed.
unfoldable pub add_subjects : List Bytes → List Bytes → Bool → List Bytes × Bool
unfolding any_covers delete_covered
add_subjects [] subjects changed = (subjects, changed)
add_subjects (s ∷ ss) subjects changed =
    let kept = add_subjects ss subjects changed in
    let added = add_subjects ss (delete_covered s subjects ++ s ∷ []) true in
    if any_covers subjects s then kept else added

abbrev patched : StreamConfig → List Bytes × Bool → StreamConfig × Bool × Option Incompatible
patched c (subjects, changed) = (
  record c { subjects = subjects; allow_msg_schedules = true },
  changed || not c.allow_msg_schedules,
  none,
)

abbrev patch_or :
    StreamConfig → Bytes → Option Incompatible → StreamConfig × Bool × Option Incompatible
patch_or c topic (some bad) = (c, false, some bad)
patch_or c topic none = patched c (add_subjects (sdk_subjects topic) c.subjects false)

unfoldable pub patch_stream : StreamConfig → Bytes → StreamConfig × Bool × Option Incompatible
unfolding schedule_incompatibility add_subjects sdk_subjects
patch_stream c topic = patch_or c topic (schedule_incompatibility c)
