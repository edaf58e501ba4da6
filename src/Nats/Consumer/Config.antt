-- ===== src/Nats/Consumer/Config.antt =====
-- nats/consumer/config.go. Durations are integers of nanoseconds; whether a text is an RFC3339 time is
-- a parameter. `Validate` gives its list of errors, which is empty where the source returns nil.
pub mod Laws
pub mod Filters
use go_dev_sdk.Prelude.{
  ℕ, ◌*◌, Bool, true, false, ◌&&◌, ◌||◌, not, List, [], ◌∷◌, ◌++◌, Option, none, some, Bytes, codes,
  is_empty, eq_bytes, contains_byte, if◌then◌else◌, reports,
}
use go_dev_sdk.Prelude.Int.{or_if_not_positive, ℤ, pos, ltb_ℤ, is_negative, is_zero, not_positive}
use go_dev_sdk.Nats.Subject.{data_subjects}

pub record Config : Type 0 where
  pub endpoints : List Bytes
  pub topic : Bytes
  pub group : Bytes
  pub tags : List Bytes
  pub timeout : ℤ
  pub handler_timeout : ℤ
  pub max_retry_attempts : ℤ
  pub max_concurrent : ℤ
  pub consume_from_where : Bytes
  pub consume_timestamp : Bytes
  pub retry_backoff : ℤ

abbrev pub default_timeout : ℤ
default_timeout = pos (60 * 1000000000)

abbrev pub min_timeout : ℤ
min_timeout = pos (100 * 1000000)

abbrev pub default_tags : Bytes
default_tags = codes "*"

abbrev pub from_last : Bytes
from_last = codes "last"

abbrev pub from_first : Bytes
from_first = codes "first"

abbrev pub from_timestamp : Bytes
from_timestamp = codes "timestamp"

abbrev or_list {ℓ} : {A : Type ℓ} → List A → List A → List A
or_list [] d = d
or_list (a ∷ l) d = a ∷ l

unfoldable pub set_defaults : Config → Config
set_defaults c =
    let timeout = or_if_not_positive c.timeout default_timeout in
    record c {
      timeout = timeout;
      handler_timeout = (if is_zero c.handler_timeout then timeout else c.handler_timeout);
      max_retry_attempts = or_if_not_positive c.max_retry_attempts (pos 5);
      max_concurrent = or_if_not_positive c.max_concurrent (pos 10);
      tags = or_list c.tags (default_tags ∷ []);
      consume_from_where = or_list c.consume_from_where from_last;
    }

pub data ConfigError : Type 0 where
  endpoints_required topic_required invalid_topic group_required invalid_group : ConfigError
  empty_tag invalid_tag invalid_from_where invalid_timestamp : ConfigError
  negative_retry_backoff invalid_handler_timeout invalid_timeout : ConfigError

abbrev no_entries : List Bytes → Bool
no_entries [] = true
no_entries (_ ∷ _) = false

abbrev pub has_dot : Bytes → Bool
has_dot s = contains_byte b'.' s

-- The loop over the tags stops at the first that is refused.
unfoldable pub tag_errors : List Bytes → List ConfigError
tag_errors [] = []
tag_errors (tag ∷ tags) =
    let rest = tag_errors tags in
    if is_empty tag then empty_tag ∷ [] else if has_dot tag then invalid_tag ∷ [] else rest

unfoldable pub is_from_where : Bytes → Bool
is_from_where w = eq_bytes w from_last || eq_bytes w from_first || eq_bytes w from_timestamp

unfoldable pub name_checks : Config → List (Bool × ConfigError)
name_checks c =
    (no_entries c.endpoints, endpoints_required)
    ∷ (is_empty c.topic, topic_required)
    ∷ (not (is_empty c.topic) && has_dot c.topic, invalid_topic)
    ∷ (is_empty c.group, group_required)
    ∷ (not (is_empty c.group) && has_dot c.group, invalid_group)
    ∷ []

module _ (is_rfc3339 : Bytes → Bool) where
  unfoldable pub behavior_checks : Config → List (Bool × ConfigError)
  unfolding is_from_where
  behavior_checks c =
      (not (is_from_where c.consume_from_where), invalid_from_where)
      ∷ (
        eq_bytes c.consume_from_where from_timestamp && not (is_rfc3339 c.consume_timestamp),
        invalid_timestamp,
      )
      ∷ (is_negative c.retry_backoff, negative_retry_backoff)
      ∷ (not_positive c.handler_timeout, invalid_handler_timeout)
      ∷ (ltb_ℤ c.timeout min_timeout, invalid_timeout)
      ∷ []

  unfoldable pub validate : Config → List ConfigError
  unfolding name_checks tag_errors behavior_checks
  validate c = reports (name_checks c) ++ (tag_errors c.tags ++ reports (behavior_checks c))

-- The switch of `buildFilterSubjects` for one tag.
unfoldable pub filter_subject : Bytes → Bytes → Bytes
filter_subject topic tag =
    if eq_bytes tag default_tags
    then topic ++ codes ".>"
    else if is_empty tag || eq_bytes tag topic
    then topic
    else topic ++ (codes "." ++ tag)

unfoldable pub filter_each : Bytes → List Bytes → List Bytes
unfolding filter_subject
filter_each topic [] = []
filter_each topic (tag ∷ tags) = filter_subject topic tag ∷ filter_each topic tags

abbrev pub selects_all : List Bytes → Bool
selects_all [] = true
selects_all (tag ∷ []) = eq_bytes tag default_tags
selects_all (_ ∷ _ ∷ _) = false

unfoldable pub build_filter_subjects : Config → List Bytes
unfolding filter_each
build_filter_subjects c =
    if selects_all c.tags then data_subjects c.topic else filter_each c.topic c.tags

pub data DeliverPolicy : Type 0 where
  deliver_all deliver_new : DeliverPolicy
  deliver_by_start_time : Option Bytes → DeliverPolicy

-- The single filter stands in FilterSubject, several in FilterSubjects. The start time is kept as its
-- text.
pub record ConsumerConfig : Type 0 where
  pub durable : Bytes
  pub ack_wait : ℤ
  pub max_deliver : ℤ
  pub max_ack_pending : ℤ
  pub filter_subject : Bytes
  pub filter_subjects : List Bytes
  pub deliver_policy : DeliverPolicy

abbrev single : List Bytes → Bytes
single (f ∷ []) = f
single _ = []

abbrev several : List Bytes → List Bytes
several (f ∷ g ∷ fs) = f ∷ g ∷ fs
several _ = []

module _ (is_rfc3339 : Bytes → Bool) where
  unfoldable pub build_consumer_config : Config → Bytes → ConsumerConfig
  unfolding build_filter_subjects
  build_consumer_config c durable = record {
    durable = durable;
    ack_wait = c.timeout;
    max_deliver = c.max_retry_attempts;
    max_ack_pending = c.max_concurrent;
    filter_subject = single (build_filter_subjects c);
    filter_subjects = several (build_filter_subjects c);
    deliver_policy =
        (if eq_bytes c.consume_from_where from_first
          then deliver_all
          else if eq_bytes c.consume_from_where from_timestamp
          then deliver_by_start_time
              (if is_rfc3339 c.consume_timestamp then some c.consume_timestamp else none)
          else deliver_new);
  }
