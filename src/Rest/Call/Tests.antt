-- ===== src/Rest/Call/Tests.antt =====
-- rest/client: whole calls, and the theorems at such inputs.
use go_dev_sdk.Prelude.{
  true, leb, false, ◌⊎◌, ◌≤◌, ℕ, ◌≡◌, refl, [], none, some, codes, split_at, push_front, cut_at,
  if◌then◌else◌,
}
use go_dev_sdk.Prelude.Int.{ℤ, pos}
use go_dev_sdk.Errs.{plain}
use go_dev_sdk.Rest.Redaction.{is_sendable}
use go_dev_sdk.Rest.Attempt.{World, State, failed, responded}
use go_dev_sdk.Rest.Backoff.{malformed}
use go_dev_sdk.Rest.Retry
use go_dev_sdk.Rest.Call.{Client, Request, call}
use go_dev_sdk.Rest.Call.Told.{IsTold, call-IsTold}
use go_dev_sdk.Rest.Call.Hiding.{with_query, call-hides}

abbrev dropped : World
dropped = record {
  context_err = none;
  time_left = some (pos 9);
  next = λ d. failed (plain (codes "connection closed"));
  context_err_after = none;
}

abbrev answered : World
answered = record {
  context_err = none;
  time_left = some (pos 4);
  next = λ d. responded (record { status = 404; protocol = codes "HTTP/1.1" });
  context_err_after = none;
}

-- The first attempt is dropped, and those after it are answered.
abbrev worlds : ℤ → ℕ → World
worlds bound n = if leb n 1 then dropped else answered

abbrev client : Client
client = record {
  split_host_port = λ _. none;
  atoi = λ _. none;
  timed_out = λ _. false;
  attempt_limit = pos 5;
  timeout = pos 30;
  call = record {
    max_attempts = 3;
    max_retry_after = 9;
    attempts = λ _. Retry.failed (Retry.other 0);
    context_done = λ _. false;
    jitter = λ _. 1;
    too_late = λ _ _. false;
    wait_err = λ _ _. none;
  };
  classify = λ _. Retry.other 0;
  retry_after = λ _. malformed;
  woken = λ _. plain [];
}

abbrev unsent : State
unsent = record { attempts = 0; timeout_option = pos 0; sent_with = []; closed_idle = false }

abbrev order : Request
order = record {
  sent = record {
    is_body_stream = false;
    file_has_reader = false;
    field_has_reader = false;
    method = codes "GET";
    idempotency_key = [];
  };
  uri = record {
    scheme = codes "https";
    host = codes "h";
    path_original = codes "/p";
    query_string = codes "a=1&tok&&b=2";
  };
  path = codes "/p";
}

call-IsTold_example :
    (n : ℕ) × (((is_sendable order.uri ≡ true) × (1 ≤ n) × ((n ≤ 3) ⊎ (n ≡ 1)))
      ⊎ ((is_sendable order.uri ≡ false) × (n ≡ 0)))
    × IsTold n [] (call client worlds none order unsent [])
call-IsTold_example = call-IsTold client worlds none order unsent

call-hides_example :
    call client worlds none order unsent []
    ≡ call client worlds none (with_query order (codes "a=x&other&b=")) unsent []
unfolding split_at push_front cut_at
call-hides_example = call-hides client order (codes "a=x&other&b=") refl worlds none unsent []
