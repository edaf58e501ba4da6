-- ===== src/Nats/Producer/Message/Selected.antt =====
-- nats/producer and nats/consumer: which streams and consumers take the subject of a message.
use go_dev_sdk.Prelude.{
  ◌≡◌, ◌≢◌, ◌⊎◌, refl, sym, ap, ◌∙◌, inl, inr, true, false, ◌||◌, Bool-cases, List, [], ◌∷◌, ◌++◌,
  Bytes, codes, eq_bytes, eq_bytes_iff, eq_bytes_self, is_empty, split_at, push_front,
  contains_byte, arith,
}
use go_dev_sdk.Nats.Subject.{full_wildcard, data_subjects, schedule_wildcard}
use go_dev_sdk.Nats.Subject.Matching.{matches}
use go_dev_sdk.Nats.Stream.{sdk_subjects}
use go_dev_sdk.Nats.Stream.Patching.{accepts}
use go_dev_sdk.Nats.Consumer.Config.{
  Config, has_dot, default_tags, filter_subject, filter_each, build_filter_subjects, selects_all,
}
use go_dev_sdk.Nats.Consumer.Config.Filters.{
  split_single, split_join, IsTopic, filters-topic, filters_all,
}
use go_dev_sdk.Nats.Producer.Message.{build_subject}

-- The tag is one of the list.
abbrev pub Has : Bytes → List Bytes → Type 0
Has tag [] = false ≡ true
Has tag (t ∷ ts) = (eq_bytes tag t ≡ true) ⊎ Has tag ts

pub matches_refl : (p : List Bytes) → matches p p ≡ true
unfolding matches
matches_refl [] = refl
matches_refl (t ∷ p) = ground (arith, matches_refl p, eq_bytes_self t)

pub wide_tag :
    (topic tag : Bytes)
    → has_dot topic ≡ false
    → has_dot tag ≡ false
    → matches (split_at b'.' (topic ++ codes ".>")) (split_at b'.' (topic ++ (codes "." ++ tag)))
      ≡ true
unfolding matches split_at
wide_tag topic tag one h =
    rw (split_join topic (codes ">") one, split_join topic tag one, split_single tag h)
      (ground (arith, eq_bytes_self topic, eq_bytes_self full_wildcard))

pub star_topic :
    (topic tag : Bytes)
    → IsTopic topic
    → eq_bytes tag default_tags ≡ true
    → (is_empty tag || eq_bytes tag topic) ≡ false
star_topic topic tag literal w =
    let same : tag ≡ default_tags = (eq_bytes_iff tag default_tags).0 w in
    rw same (elim (Bool-cases (eq_bytes default_tags topic)) [
      | inl e ↦
          let back : default_tags ≡ topic = (eq_bytes_iff default_tags topic).0 e in
          let bad : eq_bytes default_tags default_tags ≡ false =
            rw (sym back) at literal.not_star in
          absurd (cc (bad, eq_bytes_self default_tags))
      | inr e ↦ e
    ])

-- The subject that a tag selects takes the message published with that tag.
pub own_tag :
    (topic tag : Bytes)
    → IsTopic topic
    → has_dot tag ≡ false
    → matches (split_at b'.' (filter_subject topic tag)) (split_at b'.' (build_subject topic tag))
      ≡ true
unfolding filter_subject build_subject
own_tag topic tag literal h = elim (Bool-cases (eq_bytes tag default_tags)) [
  | inl w ↦
      rw (star_topic topic tag literal w, w, filter_subject, build_subject)
        (wide_tag topic tag literal.one_token h)
  | inr w ↦ elim (Bool-cases (is_empty tag || eq_bytes tag topic)) [
    | inl e ↦ rw (e, w, filter_subject, build_subject) (matches_refl (split_at b'.' topic))
    | inr e ↦
        rw (e, w, filter_subject, build_subject) (matches_refl (split_at b'.' (topic ++ 46 ∷ tag)))
  ]
]

pub own_filter :
    (topic tag : Bytes) (tags : List Bytes)
    → IsTopic topic
    → has_dot tag ≡ false
    → Has tag tags
    → accepts (filter_each topic tags) (split_at b'.' (build_subject topic tag)) ≡ true
unfolding filter_each accepts
own_filter topic tag [] literal h m = absurd (cc)
own_filter topic tag (t ∷ ts) literal h (inl e) =
    let same : tag ≡ t = (eq_bytes_iff tag t).0 e in
    rw (ap (filter_subject topic) (sym same)) (rw (own_tag topic tag literal h) refl)
own_filter topic tag (t ∷ ts) literal h (inr m) =
    ground (arith, own_filter topic tag ts literal h m)

-- The subject of a message has the topic as its first token.
pub subject_leads :
    (topic tag : Bytes)
    → has_dot topic ≡ false
    → (ts : List Bytes) × (split_at b'.' (build_subject topic tag) ≡ topic ∷ ts)
unfolding build_subject
subject_leads topic tag one = elim (Bool-cases (is_empty tag || eq_bytes tag topic)) [
  | inl e ↦ rw (e, build_subject) ([], split_single topic one)
  | inr e ↦ rw (e, build_subject) (_, split_join topic tag one)
]

pub selected :
    (c : Config) (tag : Bytes)
    → IsTopic c.topic
    → has_dot tag ≡ false
    → (selects_all c.tags ≡ true) ⊎ Has tag c.tags
    → accepts (build_filter_subjects c) (split_at b'.' (build_subject c.topic tag)) ≡ true
unfolding build_filter_subjects
selected c tag literal h for_it =
    let (ts, lead) = subject_leads c.topic tag literal.one_token in
    elim (Bool-cases (selects_all c.tags)) [
      | inl all ↦ rw lead (filters_all c ts literal.one_token all)
      | inr some_tags ↦ elim for_it [
        | inl all ↦ absurd (cc)
        | inr m ↦ rw (some_tags, build_filter_subjects) (own_filter c.topic tag c.tags literal h m)
      ]
    ]

pub full_takes : (s : Bytes) → matches (full_wildcard ∷ []) (split_at b'.' s) ≡ true
unfolding matches split_at push_front eq_bytes
full_takes [] = refl
full_takes (b ∷ s) = ground (arith, full_takes s)

pub bare_or_tagged :
    (topic s : Bytes)
    → (matches (topic ∷ []) (topic ∷ []) ≡ true)
      × (matches (topic ∷ full_wildcard ∷ []) (topic ∷ split_at b'.' s) ≡ true)
unfolding matches
bare_or_tagged topic s =
    (matches_refl (topic ∷ []), ground (arith, full_takes s, eq_bytes_self topic))

pub full_token : split_at b'.' (codes ">") ≡ full_wildcard ∷ []
unfolding split_at push_front
full_token = refl

pub stored_data :
    (topic tag : Bytes)
    → has_dot topic ≡ false
    → accepts (sdk_subjects topic) (split_at b'.' (build_subject topic tag)) ≡ true
unfolding sdk_subjects data_subjects accepts build_subject
stored_data topic tag one =
    let both = bare_or_tagged topic tag in
    elim (Bool-cases (is_empty tag || eq_bytes tag topic)) [
      | inl e ↦ rw (e, split_single topic one, build_subject) (ground (arith, both.0))
      | inr e ↦
          rw
            (
              e,
              split_join topic tag one,
              split_join topic (codes ">") one,
              full_token,
              build_subject,
            )
            (ground (arith, both.1))
    ]

pub schedule_tokens :
    (topic s : Bytes)
    → has_dot topic ≡ false
    → split_at b'.' (codes "schedules." ++ (topic ++ 46 ∷ s))
      ≡ codes "schedules" ∷ topic ∷ split_at b'.' s
unfolding contains_byte
schedule_tokens topic s one =
    split_join (codes "schedules") (topic ++ 46 ∷ s) refl
    ∙ ap (◌∷◌ (codes "schedules")) (split_join topic s one)

pub full_takes_schedule :
    (topic id : Bytes)
    → matches
        (codes "schedules" ∷ topic ∷ full_wildcard ∷ [])
        (codes "schedules" ∷ topic ∷ split_at b'.' id)
      ≡ true
unfolding matches
full_takes_schedule topic id =
    ground (arith, full_takes id, eq_bytes_self topic, eq_bytes_self (codes "schedules"))

pub stored_schedule :
    (topic id : Bytes)
    → has_dot topic ≡ false
    → accepts (sdk_subjects topic) (codes "schedules" ∷ topic ∷ split_at b'.' id) ≡ true
unfolding sdk_subjects schedule_wildcard data_subjects accepts
stored_schedule topic id one =
    rw (schedule_tokens topic (codes ">") one, full_token)
      (ground (arith, full_takes_schedule topic id))

pub no_schedule :
    (c : Config) (id : Bytes)
    → IsTopic c.topic
    → c.topic ≢ codes "schedules"
    → accepts (build_filter_subjects c) (codes "schedules" ∷ c.topic ∷ split_at b'.' id) ≡ false
no_schedule c id literal other =
    elim (Bool-cases
      (accepts (build_filter_subjects c) (codes "schedules" ∷ c.topic ∷ split_at b'.' id))) [
        | inl e ↦
            absurd
              (other (filters-topic c (codes "schedules") (c.topic ∷ split_at b'.' id) literal e).0)
        | inr e ↦ e
      ]
