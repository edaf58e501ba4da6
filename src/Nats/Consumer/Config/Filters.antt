-- ===== src/Nats/Consumer/Config/Filters.antt =====
-- nats/consumer/config.go: which messages the filter subjects select.
use go_dev_sdk.Prelude.{
  ◌≡◌, ◌≢◌, refl, ap, ◌∙◌, inl, inr, true, false, ◌||◌, Bool-cases, List, [], ◌∷◌, ◌++◌, Bytes,
  codes, eq_bytes, eq_bytes_iff, eq_bytes_self, split_at, push_front, contains_byte, arith, All,
  is_empty,
}
use go_dev_sdk.Nats.Subject.{star, full_wildcard, data_subjects}
use go_dev_sdk.Nats.Subject.Matching.{matches}
use go_dev_sdk.Nats.Stream.Patching.{accepts}
use go_dev_sdk.Nats.Consumer.Config.{
  Config, has_dot, default_tags, filter_subject, filter_each, build_filter_subjects, selects_all,
}

pub split_single : (s : Bytes) → has_dot s ≡ false → split_at b'.' s ≡ s ∷ []
unfolding split_at contains_byte push_front
split_single [] h = refl
split_single (b ∷ s) h = ground (arith, split_single s)

pub split_join :
    (s rest : Bytes) → has_dot s ≡ false → split_at b'.' (s ++ b'.' ∷ rest) ≡ s ∷ split_at b'.' rest
unfolding split_at contains_byte push_front
split_join [] rest h = refl
split_join (b ∷ s) rest h = ground (arith, split_join s rest)

-- A topic that stands for itself: one token, and no wildcard.
pub record IsTopic (topic : Bytes) : Type 0 where
  pub one_token : has_dot topic ≡ false
  pub not_star : eq_bytes topic star ≡ false
  pub not_full : eq_bytes topic full_wildcard ≡ false

-- The subject has the topic as its first token.
abbrev Leads : Bytes → Bytes → Type 0
Leads topic f = (rest : List Bytes) × (split_at b'.' f ≡ topic ∷ rest)

filter_subject-Leads :
    (topic tag : Bytes) → has_dot topic ≡ false → Leads topic (filter_subject topic tag)
unfolding filter_subject
filter_subject-Leads topic tag h = elim (Bool-cases (eq_bytes tag default_tags)) [
  | inl e ↦ rw (e, filter_subject) (_, split_join topic (codes ">") h)
  | inr e ↦ elim (Bool-cases (is_empty tag || eq_bytes tag topic)) [
    | inl f ↦ rw (e, f, filter_subject) (_, split_single topic h)
    | inr f ↦ rw (e, f, filter_subject) (_, split_join topic tag h)
  ]
]

Leads-first :
    (topic f t : Bytes) (ts : List Bytes)
    → IsTopic topic
    → Leads topic f
    → matches (split_at b'.' f) (t ∷ ts) ≡ true
    → topic ≡ t
unfolding matches
Leads-first topic f t ts literal (rest, e) h =
    let m : matches (topic ∷ rest) (t ∷ ts) ≡ true = rw e at h in
    ground (arith, literal.not_star, literal.not_full, eq_bytes_iff topic t)

filter_each-AllLead :
    (topic : Bytes) (tags : List Bytes)
    → has_dot topic ≡ false
    → All (Leads topic) (filter_each topic tags)
unfolding filter_each
filter_each-AllLead topic [] h = tt
filter_each-AllLead topic (tag ∷ tags) h =
    (filter_subject-Leads topic tag h, filter_each-AllLead topic tags h)

data_subjects-AllLead :
    (topic : Bytes) → has_dot topic ≡ false → All (Leads topic) (data_subjects topic)
unfolding data_subjects
data_subjects-AllLead topic h =
    ((_, split_single topic h), ((_, split_join topic (codes ">") h), tt))

accepts-first :
    (topic t : Bytes) (fs ts : List Bytes)
    → IsTopic topic
    → All (Leads topic) fs
    → accepts fs (t ∷ ts) ≡ true
    → topic ≡ t
unfolding accepts
accepts-first topic t [] ts literal all h = cc
accepts-first topic t (f ∷ fs) ts literal all h =
    elim (Bool-cases (matches (split_at b'.' f) (t ∷ ts))) [
      | inl m ↦ Leads-first topic f t ts literal all.0 m
      | inr m ↦ accepts-first topic t fs ts literal all.1 (rw (m, accepts) at h)
    ]

filtered :
    (c : Config) (t : Bytes) (ts : List Bytes)
    → IsTopic c.topic
    → accepts (build_filter_subjects c) (t ∷ ts) ≡ true
    → c.topic ≡ t
unfolding build_filter_subjects
filtered c t ts literal h = elim (Bool-cases (selects_all c.tags)) [
  | inl e ↦
      accepts-first c.topic t (data_subjects c.topic) ts literal
        (data_subjects-AllLead c.topic literal.one_token) (rw (e, build_filter_subjects) at h)
  | inr e ↦
      accepts-first c.topic t (filter_each c.topic c.tags) ts literal
        (filter_each-AllLead c.topic c.tags literal.one_token) (rw (e, build_filter_subjects) at h)
]

filter_each_full :
    (topic : Bytes) (tags : List Bytes) → selects_all tags ≡ false → filter_each topic tags ≢ []
unfolding filter_each
filter_each_full topic [] h = λ e. cc
filter_each_full topic (tag ∷ tags) h = λ e. cc

build_filter_subjects_full : (c : Config) → build_filter_subjects c ≢ []
unfolding build_filter_subjects data_subjects
build_filter_subjects_full c = elim (Bool-cases (selects_all c.tags)) [
  | inl e ↦ rw (e, build_filter_subjects) (λ n. cc)
  | inr e ↦ rw (e, build_filter_subjects) (filter_each_full c.topic c.tags e)
]

pub filters-topic :
    (c : Config) (t : Bytes) (ts : List Bytes)
    → IsTopic c.topic
    → accepts (build_filter_subjects c) (t ∷ ts) ≡ true
    → (c.topic ≡ t) × (build_filter_subjects c ≢ [])
filters-topic c t ts literal h = (filtered c t ts literal h, build_filter_subjects_full c)

matches_self :
    (t : Bytes) (ts : List Bytes) (rest : List Bytes)
    → matches rest ts ≡ true
    → matches (t ∷ rest) (t ∷ ts) ≡ true
unfolding matches
matches_self t ts rest h = ground (arith, eq_bytes_self t)

all_match :
    (topic : Bytes) (ts : List Bytes)
    → matches (topic ∷ []) (topic ∷ ts) || matches (topic ∷ full_wildcard ∷ []) (topic ∷ ts) ≡ true
unfolding matches
all_match topic [] = ground (arith, eq_bytes_self topic)
all_match topic (t ∷ ts) = ground (arith, eq_bytes_self topic, eq_bytes_self full_wildcard)

-- No tags, or "*" alone, select every message of the topic, with or without a tag.
pub filters_all :
    (c : Config) (ts : List Bytes)
    → has_dot c.topic ≡ false
    → selects_all c.tags ≡ true
    → accepts (build_filter_subjects c) (c.topic ∷ ts) ≡ true
unfolding build_filter_subjects accepts data_subjects split_at
filters_all c ts h all =
    rw (all, split_single c.topic h, split_join c.topic (codes ">") h, build_filter_subjects)
      (ground (arith, all_match c.topic ts))

-- The message of the topic without a tag.
abbrev Misses : Bytes → Bytes → Type 0
Misses topic f = matches (split_at b'.' f) (topic ∷ []) ≡ false

more_tokens :
    (topic f r : Bytes)
    → eq_bytes topic full_wildcard ≡ false
    → split_at b'.' f ≡ topic ∷ r ∷ []
    → Misses topic f
unfolding matches
more_tokens topic f r h e = rw e (ground (arith, h))

abbrev IsSubTag : Bytes → Bytes → Type 0
IsSubTag topic tag = (tag ≢ []) × (has_dot tag ≡ false) × (eq_bytes tag topic ≡ false)

filter_subject-Misses :
    (topic tag : Bytes)
    → IsTopic topic
    → IsSubTag topic tag
    → Misses topic (filter_subject topic tag)
unfolding filter_subject split_at
filter_subject-Misses topic tag literal (full, one, other) =
    elim (Bool-cases (eq_bytes tag default_tags)) [
      | inl e ↦
          rw (e, filter_subject)
            (more_tokens topic (topic ++ 46 ∷ codes ">") (codes ">") literal.not_full
              (split_join topic (codes ">") literal.one_token))
      | inr e ↦ elim (Bool-cases (is_empty tag || eq_bytes tag topic)) [
        | inl f ↦ absurd (ground arith)
        | inr f ↦
            rw (e, f, filter_subject)
              (more_tokens topic (topic ++ 46 ∷ tag) tag literal.not_full
                (split_join topic tag literal.one_token ∙ ap (◌∷◌ topic) (split_single tag one)))
      ]
    ]

filter_each-Misses :
    (topic : Bytes) (tags : List Bytes)
    → IsTopic topic
    → All (IsSubTag topic) tags
    → accepts (filter_each topic tags) (topic ∷ []) ≡ false
unfolding filter_each accepts
filter_each-Misses topic [] literal h = refl
filter_each-Misses topic (tag ∷ tags) literal h =
    ground (
      arith,
      filter_subject-Misses topic tag literal h.0,
      filter_each-Misses topic tags literal h.1,
    )

-- Two tags or more, none of them the topic's name, select no message that was published without a tag,
-- also where one of them is "*".
pub filters_several :
    (c : Config)
    → IsTopic c.topic
    → selects_all c.tags ≡ false
    → All (IsSubTag c.topic) c.tags
    → accepts (build_filter_subjects c) (c.topic ∷ []) ≡ false
unfolding build_filter_subjects
filters_several c literal more tags =
    rw (more, build_filter_subjects) (filter_each-Misses c.topic c.tags literal tags)
