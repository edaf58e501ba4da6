-- ===== src/Nats/Consumer/Lifecycle/Success.antt =====
-- nats/consumer/consumer.go: when `Start` succeeds.
use go_dev_sdk.Prelude.{
  either_branch, ◌≡◌, ◌≢◌, ◌↔◌, ◌⊎◌, refl, inl, inr, true, false, List, [], ◌∷◌, ◌++◌, Option,
  Bytes, All,
}
use go_dev_sdk.Nats.Failure.{Err}
use go_dev_sdk.Nats.Consumer.Lifecycle.{
  Consumer, StartAnswer, consuming, dial_failed, subscribe_failed, start_all, start_one, begin,
  start, names,
}

module _ (answers : Bytes → StartAnswer) (shut : Bytes → Option Err) where
  abbrev pub AllConsume : List Bytes → Type 0
  AllConsume = All (λ (n : Bytes). answers n ≡ consuming)

  Answer-cases : (a : StartAnswer) → (a ≡ consuming) ⊎ (a ≢ consuming)
  Answer-cases consuming = inl refl
  Answer-cases (dial_failed e) = inr (λ h. cc)
  Answer-cases (subscribe_failed e) = inr (λ h. cc)

  start_one_fails :
      (a : StartAnswer) (n : Bytes) (running opened : List Bytes)
      (next : List Err × List Bytes × List Bytes)
      → a ≢ consuming
      → (start_one answers shut a n running opened next).0 ≢ []
  start_one_fails consuming n running opened next h = absurd (h refl)
  start_one_fails (dial_failed e) n running opened next h = λ f. cc
  start_one_fails (subscribe_failed e) n running opened next h = λ f. cc

  start_all_iff :
      (ns running opened : List Bytes)
      → ((start_all answers shut ns running opened).0 ≡ []) ↔ AllConsume ns
  unfolding start_all
  start_all_iff [] running opened = (λ _. tt, λ _. refl)
  start_all_iff (n ∷ ns) running opened = elim (Answer-cases (answers n)) [
    | inl e ↦
        rw (e, start_all)
          (let rest = start_all_iff ns (running ++ n ∷ []) (n ∷ opened) in
            (λ h. (refl, rest.0 h), λ h. rest.1 h.1))
    | inr e ↦
        ((λ h. absurd (start_one_fails (answers n) n running opened _ e h)), (λ h. absurd (e h.0)))
  ]

  begin_iff :
      (c : Consumer) (r : List Err × List Bytes × List Bytes)
      → c.started ≡ false
      → ((begin answers shut c r).1.started ≡ true) ↔ (r.0 ≡ [])
  begin_iff c ([], running, opened) off = (λ _. refl, λ _. refl)
  begin_iff c (e ∷ es, running, opened) off = (λ on. cc, λ h. cc)

  -- A consumer that is not started is so after `Start` exactly when every registered one was dialed and
  -- subscribed.
  pub start_iff :
      (c : Consumer)
      → c.started ≡ false
      → ((start answers shut c).1.started ≡ true) ↔ AllConsume (names c)
  unfolding start
  start_iff c off =
      either_branch (λ (r : List Err × Consumer). (r.1.started ≡ true) ↔ AllConsume (names c))
        c.started _ _ (λ on. absurd cc)
        (λ _.
          let a = begin_iff c (start_all answers shut (names c) [] c.opened) off in
          let b = start_all_iff (names c) [] c.opened in (λ h. b.0 (a.0 h), λ h. a.1 (b.1 h)))
