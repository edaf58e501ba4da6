-- ===== src/Nats/Producer/Message/Delivered.antt =====
-- nats/producer and nats/consumer: a published message comes to the consumers that its tag is for, and
-- they read back what was sent.
use go_dev_sdk.Prelude.{
  ◌≡◌, ◌≢◌, ◌⊎◌, refl, sym, ap, ◌∙◌, true, false, [], ◌∷◌, ◌++◌, some, none, Bytes, codes, is_empty,
  cut_prefix, split_at, arith, if◌then◌else◌,
}
use go_dev_sdk.Nats.Stream.{sdk_subjects}
use go_dev_sdk.Nats.Stream.Patching.{accepts}
use go_dev_sdk.Nats.Consumer.Config.{Config, has_dot, build_filter_subjects, selects_all}
use go_dev_sdk.Nats.Consumer.Config.Filters.{IsTopic}
use go_dev_sdk.Nats.Consumer.Handler.{Metadata, Delivery, Message, new_message, suffix_tag}
use go_dev_sdk.Nats.Producer.Message.{Outgoing, Msg, build_subject, build_msg, build_delayed}
use go_dev_sdk.Nats.Producer.Message.Selected.{
  Has, no_schedule, schedule_tokens, selected, stored_data, stored_schedule,
}

-- What the server hands on: the message's subject and headers, whatever else the delivery is.
abbrev pub carrying : Msg → Delivery → Delivery
carrying w d = record d {
  key_header = w.key_header;
  tag_header = w.tag_header;
  subject = w.subject;
}

no_suffix : (s p : Bytes) → cut_prefix s (s ++ 46 ∷ p) ≡ none
unfolding cut_prefix
no_suffix [] p = refl
no_suffix (x ∷ s) p = ground (arith, no_suffix s p)

-- The consumer reads back the tag of the header, or none where the subject is the bare topic.
tag_back :
    (topic tag : Bytes)
    → (if is_empty tag
        then suffix_tag (cut_prefix (build_subject topic tag) (topic ++ codes "."))
        else tag)
      ≡ tag
unfolding build_subject
tag_back topic [] = rw (no_suffix topic []) refl
tag_back topic (b ∷ tag) = refl

read_back :
    (m : Outgoing) (d : Delivery) (md : Metadata)
    → d.metadata ≡ some md
    → new_message m.topic (carrying (build_msg m) d)
      ≡ some (record {
        key = m.key;
        tag = m.tag;
        subject = (build_msg m).subject;
        sequence = md.sequence;
        delivery_count = md.num_delivered;
      })
unfolding build_msg new_message
read_back m d md read =
    let given : Bytes → Message = λ t. record {
      key = m.key;
      tag = t;
      subject = (build_msg m).subject;
      sequence = md.sequence;
      delivery_count = md.num_delivered;
    } in
    rw (read, new_message) (ap (λ (t : Bytes). some (given t)) (tag_back m.topic m.tag))

-- A message whose tag has no dot, published to a topic that is a literal token, is taken by the stream
-- of the topic and selected by every consumer of it that has no tags, "*" alone or the message's tag
-- among its tags; and the consumer's handler is given the key and the tag that were published.
pub publish-Received :
    (c : Config) (m : Outgoing) (d : Delivery) (md : Metadata)
    → IsTopic c.topic
    → m.topic ≡ c.topic
    → has_dot m.tag ≡ false
    → (selects_all c.tags ≡ true) ⊎ Has m.tag c.tags
    → d.metadata ≡ some md
    → let w = build_msg m in
      (accepts (sdk_subjects c.topic) (split_at b'.' w.subject) ≡ true)
      × (accepts (build_filter_subjects c) (split_at b'.' w.subject) ≡ true)
      × (new_message c.topic (carrying w d)
          ≡ some (record {
            key = m.key;
            tag = m.tag;
            subject = w.subject;
            sequence = md.sequence;
            delivery_count = md.num_delivered;
          }))
unfolding build_msg
publish-Received c m d md literal same h for_it read = (
  rw (same, build_msg) (stored_data c.topic m.tag literal.one_token),
  rw (same, build_msg) (selected c m.tag literal h for_it),
  ap (λ (t : Bytes). new_message t (carrying (build_msg m) d)) (sym same) ∙ read_back m d md read,
)

-- A delayed message is kept by the stream of its topic under a subject that no consumer of the topic
-- selects, unless the topic is named "schedules", and becomes the message that a publish without a
-- delay sends: its target, body, key and tag are those.
pub delayed-Scheduled :
    (c : Config) (m : Outgoing) (id at : Bytes)
    → IsTopic c.topic
    → m.topic ≡ c.topic
    → c.topic ≢ codes "schedules"
    → let w = build_delayed id at m in
      (accepts (sdk_subjects c.topic) (split_at b'.' w.subject) ≡ true)
      × (accepts (build_filter_subjects c) (split_at b'.' w.subject) ≡ false)
      × (record w { subject = w.schedule_target; schedule = []; schedule_target = [] }
          ≡ build_msg m)
unfolding build_delayed build_msg
delayed-Scheduled c m id at literal same other =
    rw (same, build_delayed, build_msg)
      (
        rw (schedule_tokens c.topic id literal.one_token)
            (stored_schedule c.topic id literal.one_token),
        rw (schedule_tokens c.topic id literal.one_token) (no_schedule c id literal other),
        refl,
      )
