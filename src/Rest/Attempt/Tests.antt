-- ===== src/Rest/Attempt/Tests.antt =====
-- rest/client: single attempts and URLs, and the theorems at such inputs.
use go_dev_sdk.Prelude.{
  suc, ◌≡◌, ◌⊎◌, refl, Bool, true, false, [], ◌∷◌, none, some, codes, split_at, push_front, cut_at,
}
use go_dev_sdk.Prelude.Int.{ℤ, pos, ◌≤ℤ◌, not_positive}
use go_dev_sdk.Errs.{Err, plain}
use go_dev_sdk.Rest.Attempt.{World, State, failed, deadline}
use go_dev_sdk.Rest.Attempt.Laws.{IsWithin, deadline-bounds}
use go_dev_sdk.Rest.Redaction.{Uri, redact_url, redact_query, redact_segments}

abbrev times_out : Err → Bool
times_out e = true

abbrev world : World
world = record {
  context_err = none;
  time_left = some (pos 3);
  next = λ d. failed (plain (codes "timeout"));
  context_err_after = none;
}

abbrev unsent : State
unsent = record { attempts = 0; timeout_option = pos 9; sent_with = []; closed_idle = false }

deadline-bounds_example :
    let q = (deadline times_out (pos 5) world unsent).1 in
    (q ≡ unsent)
    ⊎ ((d : ℤ) × (q.sent_with ≡ d ∷ [])
        × (q.attempts ≡ suc 0)
        × (q.timeout_option ≡ pos 9)
        × (not_positive d ≡ false)
        × (d ≤ℤ pos 5)
        × IsWithin d (some (pos 3)))
deadline-bounds_example = deadline-bounds times_out (pos 5) world unsent

abbrev uri : Uri
uri = record {
  scheme = codes "https";
  host = codes "h";
  path_original = codes "/p";
  query_string = codes "a=1&tok&&b=2";
}

hidden : redact_url uri ≡ codes "https://h/p?a=REDACTED&REDACTED&b=REDACTED"
unfolding redact_url redact_query redact_segments split_at push_front cut_at
hidden = refl
