-- ===== src/Nats/Producer/Tests.antt =====
-- nats/producer: runs on small inputs, and the theorems at such inputs.
use go_dev_sdk.Prelude.{
  ◌⊎◌, ◌<◌, ◌+◌, ◌≡◌, ◌≢◌, refl, inl, inr, true, false, [], ◌∷◌, Option, none, some, Bytes, codes,
  eq_bytes, split_at, contains_byte, reports,
}
use go_dev_sdk.Prelude.Int.{pos}
use go_dev_sdk.Nats.Failure.{Err}
use go_dev_sdk.Nats.Stream.{sdk_subjects}
use go_dev_sdk.Nats.Stream.Patching.{accepts}
use go_dev_sdk.Nats.Consumer.Config as Consuming
use go_dev_sdk.Nats.Consumer.Config.{build_filter_subjects}
use go_dev_sdk.Nats.Consumer.Config.Filters.{IsTopic}
use go_dev_sdk.Nats.Consumer.Handler.{Delivery, new_message}
use go_dev_sdk.Nats.Producer.Message.{
  Config, Outgoing, Msg, set_defaults, validate, build_msg, build_delayed,
}
use go_dev_sdk.Nats.Producer.Message.Delivered.{carrying, publish-Received, delayed-Scheduled}
use go_dev_sdk.Nats.Producer.Lifecycle.{
  Producer, new_producer, register, start, dial_all, close_run, is_in, is_among, take_out,
  begin_shutdown, drain,
}
use go_dev_sdk.Nats.Producer.Lifecycle.Publish.{publish_async, add, done, transport, complete}
use go_dev_sdk.Nats.Producer.Lifecycle.Sound.{IsSound, count}
use go_dev_sdk.Nats.Producer.Lifecycle.Reach.{
  Reach, fresh, then_step, registered, started, acquired, transported, completed, shutting,
  producer_Reach-IsSound, IsDrained, drain-Ends,
}

abbrev message : Outgoing
message = record { topic = codes "t"; tag = codes "a"; key = codes "k"; body = codes "b" }

abbrev delivery : Delivery
delivery = record {
  metadata = some (record { sequence = 7; num_delivered = 1 });
  key_header = [];
  tag_header = [];
  subject = [];
  context_err = none;
  settle_err = λ _. none;
}

abbrev config : Config
config = record { endpoints = codes "localhost" ∷ []; topic = codes "t"; timeout = pos 0 }

valid : validate config ≡ []
unfolding validate reports contains_byte
valid = refl

abbrev consumer : Consuming.Config
consumer = record {
  endpoints = codes "localhost" ∷ [];
  topic = codes "t";
  group = codes "g";
  tags = codes "a" ∷ codes "b" ∷ [];
  timeout = pos 1000000000;
  handler_timeout = pos 1000000000;
  max_retry_attempts = pos 5;
  max_concurrent = pos 10;
  consume_from_where = codes "last";
  consume_timestamp = [];
  retry_backoff = pos 0;
}

literal : IsTopic consumer.topic
unfolding contains_byte eq_bytes
literal = record { one_token = refl; not_star = refl; not_full = refl }

dotless : contains_byte b'.' message.tag ≡ false
unfolding contains_byte
dotless = refl

tagged : eq_bytes message.tag (codes "a") ≡ true
unfolding eq_bytes
tagged = refl

publish-Received_example :
    let w = build_msg message in
    (accepts (sdk_subjects (codes "t")) (split_at b'.' w.subject) ≡ true)
    × (accepts (build_filter_subjects consumer) (split_at b'.' w.subject) ≡ true)
    × (new_message (codes "t") (carrying w delivery)
        ≡ some (record {
          key = codes "k";
          tag = codes "a";
          subject = w.subject;
          sequence = 7;
          delivery_count = 1;
        }))
publish-Received_example =
    publish-Received consumer message delivery (record { sequence = 7; num_delivered = 1 }) literal
      refl dotless (inr (inl tagged)) refl

other_topic : codes "t" ≢ codes "schedules"
other_topic e = cc

delayed-Scheduled_example :
    let w = build_delayed (codes "i") (codes "now") message in
    (accepts (sdk_subjects (codes "t")) (split_at b'.' w.subject) ≡ true)
    × (accepts (build_filter_subjects consumer) (split_at b'.' w.subject) ≡ false)
    × (record w { subject = w.schedule_target; schedule = []; schedule_target = [] }
        ≡ build_msg message)
delayed-Scheduled_example =
    delayed-Scheduled consumer message (codes "i") (codes "now") literal refl other_topic

abbrev up : Bytes → Option Err
up t = none

abbrev ack : Msg → Option Err
ack w = none

-- A publish that was acquired before the producer shut down, and completes after it.
abbrev leaving : Producer
leaving =
    begin_shutdown
      (transport 0 none (publish_async message (start up (register config new_producer).1).1).1)

leaving-Reach : Reach leaving
leaving-Reach =
    then_step
      (then_step
        (then_step (then_step (then_step fresh (registered config)) (started up))
          (acquired message))
        (transported 0 none))
      shutting

waits : leaving.leaving ≡ 0 ∷ []
unfolding register set_defaults validate reports contains_byte is_in start dial_all close_run
    publish_async add done is_among take_out transport begin_shutdown eq_bytes
waits = refl

producer_Reach-IsSound_example : IsSound leaving
producer_Reach-IsSound_example = producer_Reach-IsSound leaving-Reach

abbrev left : Producer
left = complete 0 none leaving

left-Reach : Reach left
left-Reach = then_step leaving-Reach (completed 0 none)

left_waits : is_among 0 left.leaving ≡ true
unfolding register set_defaults validate reports contains_byte is_in start dial_all close_run
    publish_async add done is_among take_out transport begin_shutdown eq_bytes complete
left_waits = refl

drain-Ends_example :
    ((count 0 left.sending + count 0 left.awaiting ≡ 0) × IsDrained 0 left (drain 0 left))
    ⊎ ((0 < count 0 left.sending + count 0 left.awaiting) × (drain 0 left ≡ left))
drain-Ends_example = drain-Ends 0 left-Reach left_waits
