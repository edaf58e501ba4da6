-- ===== src/Nats/Producer/Message.antt =====
-- nats/producer/config.go and producer.go: the configuration, and the messages that the publish calls
-- build. The unique suffix of a schedule subject and the text of a point in time are parameters.
pub mod Selected
pub mod Delivered
use go_dev_sdk.Prelude.{
  ℕ, ◌*◌, Bool, ◌||◌, ◌&&◌, not, List, [], ◌∷◌, ◌++◌, Option, none, some, Bytes, codes, eq_bytes,
  is_empty, contains_byte, if◌then◌else◌, reports,
}
use go_dev_sdk.Prelude.Int.{ℤ, pos, or_if_not_positive}

pub record Config : Type 0 where
  pub endpoints : List Bytes
  pub topic : Bytes
  pub timeout : ℤ

unfoldable pub set_defaults : Config → Config
set_defaults c = record c { timeout = or_if_not_positive c.timeout (pos (10 * 1000000000)) }

pub data ConfigError : Type 0 where
  endpoints_required topic_required invalid_topic : ConfigError

abbrev no_entries : List Bytes → Bool
no_entries [] = Bool.true
no_entries (_ ∷ _) = Bool.false

unfoldable pub validate : Config → List ConfigError
validate c = reports (
    (no_entries c.endpoints, endpoints_required)
    ∷ (is_empty c.topic, topic_required)
    ∷ (not (is_empty c.topic) && contains_byte b'.' c.topic, invalid_topic)
    ∷ [])

-- `Message`, of which the body is kept.
pub record Outgoing : Type 0 where
  pub topic : Bytes
  pub tag : Bytes
  pub key : Bytes
  pub body : Bytes

-- The wire form: `nats.Msg` with the headers that the SDK sets. An empty header is one not set.
pub record Msg : Type 0 where
  pub subject : Bytes
  pub body : Bytes
  pub key_header : Bytes
  pub tag_header : Bytes
  pub schedule : Bytes
  pub schedule_target : Bytes

unfoldable pub build_subject : Bytes → Bytes → Bytes
build_subject topic tag =
    if is_empty tag || eq_bytes tag topic then topic else topic ++ (codes "." ++ tag)

unfoldable pub build_msg : Outgoing → Msg
unfolding build_subject
build_msg m = record {
  subject = build_subject m.topic m.tag;
  body = m.body;
  key_header = m.key;
  tag_header = m.tag;
  schedule = [];
  schedule_target = [];
}

-- The part of `PublishSyncWithDelay` that builds the schedule message. `id` is nuid.Next() and `at`
-- the time of delivery as RFC3339 text.
unfoldable pub build_delayed : Bytes → Bytes → Outgoing → Msg
unfolding build_msg
build_delayed id at m = record (build_msg m) {
  subject = codes "schedules." ++ (m.topic ++ (codes "." ++ id));
  schedule = codes "@at " ++ at;
  schedule_target = build_subject m.topic m.tag;
}

-- What the publish calls refuse before they build anything.
abbrev pub has_dot : Bytes → Bool
has_dot s = contains_byte b'.' s
