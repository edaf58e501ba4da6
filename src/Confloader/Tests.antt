-- ===== src/Confloader/Tests.antt =====
-- confloader: runs on small inputs, and the theorems at such inputs.
use go_dev_sdk.Prelude.{
  ◌⊎◌, ℕ, zero, suc, ◌+◌, ◌≡◌, refl, true, false, [], ◌∷◌, none, some, Bytes, codes, eq_bytes,
  trim_space, split_at, cut_at, arith, All,
}
use go_dev_sdk.Prelude.Int.{ℤ, pos, negsuc, not_positive}
use go_dev_sdk.Confloader.Tag.{parsed, parse_conf_tag, parse_pairs}
use go_dev_sdk.Confloader.Config.{Config, WatcherConfig, provider_etcd}
use go_dev_sdk.Confloader.Fetch.{
  World, Answer, answer, no_answer, provider, fetched, GetterMeta, fetch_retried,
  fetch_with_fallback, attempts, settle, fetch_default,
}
use go_dev_sdk.Confloader.Fetch.Bounds.{
  Settled, fetch_with_fallback-Settled, fetch_retried-Recovers,
}
use go_dev_sdk.Confloader.Cache.{cold, get, refresh_one, need_refresh, store, outcome, refresh_all}
use go_dev_sdk.Confloader.Cache.Invariant.{IsSound, start, tick, polled, Reach-AreSound}
use go_dev_sdk.Confloader.Cache.Reading.{get-fetch}

abbrev tag : Bytes
tag = codes " folder=app , key=log.level "

parsed_tag : parse_conf_tag tag ≡ parsed (codes "app") (codes "log.level")
unfolding parse_conf_tag parse_pairs trim_space split_at cut_at eq_bytes
parsed_tag = refl

-- A backend that fails twice and then answers 7 at revision r.
abbrev script : ℕ → Answer
script zero = no_answer (provider 1)
script (suc zero) = no_answer (provider 2)
script (suc (suc n)) = answer (codes "7") (codes "r")

abbrev world : World
world = record { answers = λ n _ _. script n; done = λ _. none; parse = λ _ _. some 7 }

abbrev field : GetterMeta
field = record { name = codes "Level"; typ = 0; folder = codes "app"; key = codes "log.level" }

third_time :
    fetch_retried world 3 (codes "app") (codes "log.level") 0 0 ≡ (fetched 7 (codes "r"), 3)
unfolding fetch_retried attempts settle
third_time = refl

fetch_with_fallback-Settled_example : Settled world 3 0 8 (fetch_with_fallback world 3 field 0)
fetch_with_fallback-Settled_example = fetch_with_fallback-Settled world 3 field 0

fetch_retried-Recovers_example :
    ((fetch_retried world 3 (codes "app") (codes "log.level") 0 0).0 ≡ fetched 7 (codes "r"))
    × ((fetch_retried world 3 (codes "app") (codes "log.level") 0 0).1 ≡ 0 + 3)
fetch_retried-Recovers_example =
    fetch_retried-Recovers world 3 (codes "app") (codes "log.level") 0 2 0 7 (codes "r")
      (omega arith) (refl, (1, refl), (refl, (2, refl), (refl, (codes "7", refl, refl))))

Reach-AreSound_example : All (λ p. IsSound p.1) (refresh_all world 3 5 ((field, cold) ∷ []) 0).0
Reach-AreSound_example =
    Reach-AreSound world 3 {metas = field ∷ []} (tick (start refl) (polled 5 0))

cold_read : (get world 3 field 5 cold 0).0 ≡ fetched 7 (codes "r")
unfolding get refresh_one need_refresh store fetch_with_fallback fetch_default fetch_retried
    attempts settle
cold_read = refl

get-fetch_example :
    let r = get world 3 field 5 cold 0 in
    ((cold.last_fetch ≡ none) ⊎ (cold.stale ≡ true) → r.0 ≡ (fetch_with_fallback world 3 field 0).0)
    × ((t : ℕ)
        → cold.last_fetch ≡ some t
        → cold.stale ≡ false
        → (r.0 ≡ outcome world 3 cold cold.fetch_err) × (r.1 ≡ cold) × (r.2 ≡ 0))
get-fetch_example = get-fetch world 3 field 5 cold 0

-- Floats as integers, where only their sign counts.
abbrev watcher : WatcherConfig ℤ not_positive (pos 2)
watcher = record {
  polling_interval = pos 0;
  polling_max_retries = negsuc 0;
  polling_retry_delay = pos 9;
  polling_retry_backoff = pos 0;
}

abbrev config : Config ℤ not_positive (pos 2)
config = record {
  provider = provider_etcd;
  endpoint = codes "localhost:2379";
  auth_client_id = codes "id";
  auth_client_secret = codes "secret";
  namespace = codes "app";
  environment = [];
  watcher = watcher;
}
