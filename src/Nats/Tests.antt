-- ===== src/Nats/Tests.antt =====
-- nats: runs on small inputs, and the theorems at such inputs.
use go_dev_sdk.Prelude.{
  ◌≡◌, ◌↔◌, ◌||◌, refl, Bool, true, false, List, [], ◌∷◌, Option, none, some, Bytes, codes,
  eq_bytes, split_at, push_front, contains_byte, reports, itoa, cut_prefix,
}
use go_dev_sdk.Prelude.Int.{pos}
use go_dev_sdk.Nats.Failure.{
  nil_coded, meets_nil, panic_recovered, Err, plain, sentinel, wrap, api_error, deadline_exceeded,
  error_type, is_err, as_coded, as_api_error, as_net_timeout,
}
use go_dev_sdk.Nats.Subject.{covers, covers_tokens, data_subjects, schedule_wildcard}
use go_dev_sdk.Nats.Subject.Matching.{matches, covers_iff}
use go_dev_sdk.Nats.Stream.{
  StreamConfig, discard_old, sdk_subjects, schedule_incompatibility, patch_stream, any_covers,
  delete_covered, add_subjects,
}
use go_dev_sdk.Nats.Stream.Patching.{accepts, patch_stream-accepts}
use go_dev_sdk.Nats.Consumer.Config.{
  set_defaults, Config, validate, build_filter_subjects, filter_each, filter_subject, tag_errors,
  name_checks, behavior_checks, is_from_where,
}
use go_dev_sdk.Nats.Consumer.Config.Filters.{IsTopic, filters_several}
use go_dev_sdk.Nats.Consumer.Handler.{
  Message, returned, panics, Delivery, Adapter, handle_msg, new_message,
}
use go_dev_sdk.Nats.Consumer.Handler.Settling.{
  finals, settlement, answer_of, handle_msg-settles, handle_msg-crashes,
}
use go_dev_sdk.Nats.Consumer.Lifecycle.{
  Consumer, new_consumer, register, start, names, StartAnswer, consuming, dial_failed,
  build_group_name, insert, is_registered, start_all, shutdown_all, less_bytes,
}
use go_dev_sdk.Nats.Consumer.Lifecycle.Connections.{
  IsSound, fresh, then_step, registered, started, Reach-IsSound,
}

wide : covers (codes "orders.>") (codes "orders.*.eu") ≡ true
unfolding covers covers_tokens split_at push_front eq_bytes
wide = refl

narrow : covers (codes "orders.*") (codes "orders.>") ≡ false
unfolding covers covers_tokens split_at push_front eq_bytes
narrow = refl

coded_api : error_type (some (wrap [] (api_error 10071))) ≡ codes "10071"
unfolding error_type is_err as_coded as_api_error itoa
coded_api = refl

deadline : error_type (some (wrap [] (sentinel deadline_exceeded))) ≡ codes "timeout"
unfolding error_type is_err as_coded as_api_error as_net_timeout
deadline = refl

covers_iff_example : (covers (codes "orders.*") (codes "orders.eu") ≡ true) ↔ (
    (s : List Bytes)
    → matches (split_at b'.' (codes "orders.eu")) s ≡ true
    → matches (split_at b'.' (codes "orders.*")) s ≡ true)
covers_iff_example = covers_iff (codes "orders.*") (codes "orders.eu")

-- A stream of other make, with a subject that the topic's wildcard takes in.
abbrev old_stream : StreamConfig
old_stream = record {
  name = codes "t";
  subjects = codes "t.a" ∷ codes "u" ∷ [];
  allow_msg_schedules = false;
  deny_purge = false;
  discard = discard_old;
  mirror = none;
  sources = [];
  allow_msg_counter = false;
}

old_compatible : schedule_incompatibility old_stream ≡ none
unfolding schedule_incompatibility
old_compatible = refl

patched_subjects :
    (patch_stream old_stream (codes "t")).0.subjects
    ≡ codes "u" ∷ codes "t" ∷ codes "t.>" ∷ codes "schedules.t.>" ∷ []
unfolding patch_stream schedule_incompatibility add_subjects any_covers delete_covered sdk_subjects
    data_subjects schedule_wildcard covers covers_tokens split_at push_front eq_bytes
patched_subjects = refl

patch_stream-accepts_example :
    accepts (patch_stream old_stream (codes "t")).0.subjects (codes "t" ∷ codes "a" ∷ []) ≡ (
      accepts old_stream.subjects (codes "t" ∷ codes "a" ∷ [])
      || accepts (sdk_subjects (codes "t")) (codes "t" ∷ codes "a" ∷ []))
patch_stream-accepts_example =
    patch_stream-accepts old_stream (codes "t") (codes "t" ∷ codes "a" ∷ []) old_compatible

abbrev config : Config
config = record {
  endpoints = codes "localhost" ∷ [];
  topic = codes "t";
  group = codes "g";
  tags = codes "a" ∷ codes "*" ∷ [];
  timeout = pos 1000000000;
  handler_timeout = pos 1000000000;
  max_retry_attempts = pos 5;
  max_concurrent = pos 10;
  consume_from_where = codes "last";
  consume_timestamp = [];
  retry_backoff = pos 0;
}

abbrev no_times : Bytes → Bool
no_times s = false

valid : validate no_times config ≡ []
unfolding validate name_checks tag_errors behavior_checks is_from_where reports contains_byte
    eq_bytes
valid = refl

literal : IsTopic (codes "t")
unfolding contains_byte eq_bytes
literal = record { one_token = refl; not_star = refl; not_full = refl }

filters : build_filter_subjects config ≡ codes "t.a" ∷ codes "t.>" ∷ []
unfolding build_filter_subjects filter_each filter_subject eq_bytes
filters = refl

one_dotless : contains_byte b'.' (codes "t") ≡ false
unfolding contains_byte
one_dotless = refl

filters_several_example : accepts (build_filter_subjects config) (codes "t" ∷ []) ≡ false
unfolding contains_byte eq_bytes
filters_several_example =
    filters_several config literal refl (((λ e. cc), refl, refl), (((λ e. cc), refl, refl), tt))

-- A handler that panics after two heartbeats.
abbrev adapter : Adapter
adapter = record {
  topic = codes "t";
  retry_backoff = pos 0;
  heartbeat_every = pos 1;
  handler = λ _. (2, panics);
}

abbrev delivery : Delivery
delivery = record {
  metadata = some (record { sequence = 7; num_delivered = 1 });
  key_header = [];
  tag_header = [];
  subject = codes "t.a";
  context_err = none;
  settle_err = λ _. none;
}

tag_from_subject :
    new_message (codes "t") delivery
    ≡ some (record {
      key = [];
      tag = codes "a";
      subject = codes "t.a";
      sequence = 7;
      delivery_count = 1;
    })
unfolding new_message cut_prefix
tag_from_subject = refl

handle_msg-settles_example :
    (finals (handle_msg adapter delivery []).1
      ≡ settlement adapter (new_message (codes "t") delivery) none ∷ [])
    × ((handle_msg adapter delivery []).0
        ≡ returned (answer_of adapter (new_message (codes "t") delivery) none))
handle_msg-settles_example = handle_msg-settles adapter delivery [] (λ _. refl)

-- A handler that returns a wrapped nil *Error.
abbrev nil_adapter : Adapter
nil_adapter = record adapter { handler = λ _. (0, returned (some (wrap [] nil_coded))) }

abbrev delivered : Message
delivered = record {
  key = [];
  tag = codes "a";
  subject = codes "t.a";
  sequence = 7;
  delivery_count = 1;
}

meets : meets_nil (wrap [] nil_coded) panic_recovered ≡ true
unfolding meets_nil
meets = refl

handle_msg-crashes_example :
    ((handle_msg nil_adapter delivery []).0 ≡ panics)
    × (finals (handle_msg nil_adapter delivery []).1 ≡ [])
handle_msg-crashes_example =
    handle_msg-crashes nil_adapter delivery delivered (wrap [] nil_coded) [] tag_from_subject refl
      refl meets

-- Two consumers of which the second cannot be dialed.
abbrev second : Config
second = record config { group = codes "h" }

abbrev answer : Bytes → StartAnswer
answer n = elim (eq_bytes n (codes "app_t_g")) [ true ↦ consuming | false ↦ dial_failed (plain []) ]

abbrev no_error : Bytes → Option Err
no_error n = none

abbrev both : Consumer
both =
    (register no_times second true (register no_times config true (new_consumer (codes "app"))).1).1

two_registered : names both ≡ codes "app_t_g" ∷ codes "app_t_h" ∷ []
unfolding register set_defaults validate name_checks tag_errors behavior_checks is_from_where
    reports contains_byte eq_bytes build_group_name insert is_registered less_bytes
two_registered = refl

abbrev failed_start : Consumer
failed_start = (start answer no_error both).1

rolled_back : failed_start.opened ≡ []
unfolding start start_all shutdown_all register set_defaults validate name_checks tag_errors
    behavior_checks is_from_where reports contains_byte eq_bytes build_group_name insert
    is_registered less_bytes
rolled_back = refl

Reach-IsSound_example : IsSound failed_start
Reach-IsSound_example = Reach-IsSound no_times (
    then_step (then_step (then_step fresh (registered config true)) (registered second true))
      (started answer no_error))

not_started : both.started ≡ false
unfolding register set_defaults validate name_checks tag_errors behavior_checks is_from_where
    reports contains_byte eq_bytes build_group_name insert is_registered less_bytes
not_started = refl

-- The durable names of two topics can be one, since an underscore joins their parts.
same_name :
    build_group_name (new_consumer (codes "app")) (codes "a_b") (codes "c")
    ≡ build_group_name (new_consumer (codes "app")) (codes "a") (codes "b_c")
unfolding build_group_name
same_name = refl
