-- ===== src/Nats/Consumer/Config/Laws.antt =====
-- nats/consumer/config.go: what `Validate` accepts, and what `SetDefaults` leaves for it.
use go_dev_sdk.Prelude.{
  append-nil_iff, ◌≡◌, ◌≢◌, ◌↔◌, ◌⊎◌, Bool, true, false, List, [], ◌∷◌, ◌++◌, arith, reports,
  reports-nil_iff, Bytes, refl, All, eq_bytes_iff,
}
use go_dev_sdk.Prelude.Int.{pos, ◌≤ℤ◌}
use go_dev_sdk.Nats.Consumer.Config.{
  Config, from_last, from_first, from_timestamp, has_dot, min_timeout, tag_errors, is_from_where,
  name_checks, behavior_checks, validate,
}

abbrev IsName : Bytes → Type 0
IsName s = (s ≢ []) × (has_dot s ≡ false)

tag_errors-nil_iff : (tags : List Bytes) → (tag_errors tags ≡ []) ↔ All IsName tags
unfolding tag_errors
tag_errors-nil_iff [] = (λ _. tt, λ _. refl)
tag_errors-nil_iff (tag ∷ tags) = ground (arith, tag_errors-nil_iff tags)

module _ (is_rfc3339 : Bytes → Bool) where
  -- The endpoints, names without dots, a start point, and timeouts that a consumer needs.
  pub record IsUsable (c : Config) : Type 0 where
    pub endpoints : c.endpoints ≢ []
    pub topic : IsName c.topic
    pub group : IsName c.group
    pub tags : All IsName c.tags
    pub from_where :
        (c.consume_from_where ≡ from_last)
        ⊎ (c.consume_from_where ≡ from_first)
        ⊎ ((c.consume_from_where ≡ from_timestamp) × (is_rfc3339 c.consume_timestamp ≡ true))
    pub retry_backoff : pos 0 ≤ℤ c.retry_backoff
    pub handler_timeout : pos 1 ≤ℤ c.handler_timeout
    pub timeout : min_timeout ≤ℤ c.timeout

  abbrev NamesPass : Config → Type 0
  NamesPass c = (c.endpoints ≢ []) × IsName c.topic × IsName c.group

  name_checks-nil_iff : (c : Config) → (reports (name_checks c) ≡ []) ↔ NamesPass c
  unfolding name_checks
  name_checks-nil_iff c = ground (arith, reports-nil_iff (name_checks c))

  abbrev BehavesWell : Config → Type 0
  BehavesWell c =
      ((c.consume_from_where ≡ from_last)
        ⊎ (c.consume_from_where ≡ from_first)
        ⊎ ((c.consume_from_where ≡ from_timestamp) × (is_rfc3339 c.consume_timestamp ≡ true)))
      × (pos 0 ≤ℤ c.retry_backoff)
      × (pos 1 ≤ℤ c.handler_timeout)
      × (min_timeout ≤ℤ c.timeout)

  behavior_checks-nil_iff :
      (c : Config) → (reports (behavior_checks is_rfc3339 c) ≡ []) ↔ BehavesWell c
  unfolding behavior_checks is_from_where
  behavior_checks-nil_iff c = ground (
    arith,
    reports-nil_iff (behavior_checks is_rfc3339 c),
    eq_bytes_iff c.consume_from_where from_last,
    eq_bytes_iff c.consume_from_where from_first,
    eq_bytes_iff c.consume_from_where from_timestamp,
  )

  -- `Validate` finds nothing exactly when the config is usable: endpoints, a topic, group and tags that
  -- are not empty and have no dot, a known start point with a time where it needs one, a backoff that is
  -- not negative, a positive handler timeout, and a timeout of 100 ms or more.
  pub validate-IsUsable_iff : (c : Config) → (validate is_rfc3339 c ≡ []) ↔ IsUsable c
  unfolding validate
  validate-IsUsable_iff c = ground (
    arith,
    append-nil_iff (reports (name_checks c))
        (tag_errors c.tags ++ reports (behavior_checks is_rfc3339 c)),
    append-nil_iff (tag_errors c.tags) (reports (behavior_checks is_rfc3339 c)),
    name_checks-nil_iff c,
    tag_errors-nil_iff c.tags,
    behavior_checks-nil_iff c,
  )
