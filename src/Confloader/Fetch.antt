-- ===== src/Confloader/Fetch.antt =====
-- confloader/confloader.go: fetching one value, with retries and the default folder. What the backend
-- and the context do is the parameter `World`: the answer to the n-th call of Client.Fetch, and
-- whether the wait before that call ends by ctx.Done. Delays are left out: they change no result.
pub mod Bounds
use go_dev_sdk.Prelude.{
  ℕ, zero, suc, ◌+◌, Bool, true, false, ◌&&◌, not, Option, none, some, Bytes, codes, eq_bytes,
  if◌then◌else◌, ltb,
}

pub data Err : Type 0 where
  not_found : Err
  provider parse_failed ended : ℕ → Err

abbrev pub is_not_found : Err → Bool
is_not_found not_found = true
is_not_found _ = false

-- Client.Fetch: a raw text with its revision, or an error.
pub data Answer : Type 0 where
  answer : Bytes → Bytes → Answer
  no_answer : Err → Answer

-- A parsed value with its revision, or an error. `unset` is the return of a loop without a round.
pub data Fetched : Type 0 where
  fetched : ℕ → Bytes → Fetched
  failed : Err → Fetched
  unset : Fetched

pub record World : Type 0 where
  pub answers : ℕ → Bytes → Bytes → Answer
  pub done : ℕ → Option Err
  pub parse : Bytes → ℕ → Option ℕ  -- parseValue into a type, which yaml.v3 does

-- One field of the config struct: its name, type, folder and key.
pub record GetterMeta : Type 0 where
  pub name : Bytes
  pub typ : ℕ
  pub folder : Bytes
  pub key : Bytes

abbrev pub default_folder : Bytes
default_folder = codes "default"

module _ (w : World) (max_retries : ℕ) where
  abbrev decode : Option ℕ → Bytes → Fetched
  decode none rev = failed (parse_failed 0)
  decode (some v) rev = fetched v rev

  -- `val, perr := parseValue(f.Value, typ)`, or the branches on the error; `retry` is the next round.
  unfoldable pub settle : Answer → ℕ → (Err → Fetched × ℕ) → ℕ → Fetched × ℕ
  settle (answer raw rev) typ retry n = (decode (w.parse raw typ) rev, n)
  settle (no_answer not_found) typ retry n = (failed not_found, n)
  settle (no_answer (provider k)) typ retry n = retry (provider k)
  settle (no_answer (parse_failed k)) typ retry n = retry (parse_failed k)
  settle (no_answer (ended k)) typ retry n = retry (ended k)

  abbrev last : Option Err → Fetched
  last none = unset
  last (some e) = failed e

  -- The loop of `fetchRetried` with the rounds that are left, and the number of fetches so far. It
  -- returns that number too.
  unfoldable pub attempts : ℕ → ℕ → Bytes → Bytes → ℕ → ℕ → Option Err → Fetched × ℕ
  unfolding settle
  attempts zero attempt folder key typ n last_err = (last last_err, n)
  attempts (suc left) attempt folder key typ n last_err =
      let retry = λ (e : Err). attempts left (suc attempt) folder key typ (suc n) (some e) in
      let fetch = settle (w.answers n folder key) typ retry (suc n) in
      let wait : Fetched × ℕ = elim (w.done n) [ none ↦ fetch | some e ↦ (failed e, n) ] in
      if ltb 0 attempt then wait else fetch

  unfoldable pub fetch_retried : Bytes → Bytes → ℕ → ℕ → Fetched × ℕ
  unfolding attempts
  fetch_retried folder key typ n = attempts (suc max_retries) 0 folder key typ n none

  unfoldable pub fetch_default : GetterMeta → Fetched × ℕ → Fetched × ℕ
  fetch_default m (failed not_found, n) =
      if eq_bytes m.folder default_folder
      then (failed not_found, n)
      else fetch_retried default_folder m.key m.typ n
  fetch_default m r = r

  unfoldable pub fetch_with_fallback : GetterMeta → ℕ → Fetched × ℕ
  unfolding fetch_default
  fetch_with_fallback m n = fetch_default m (fetch_retried m.folder m.key m.typ n)
