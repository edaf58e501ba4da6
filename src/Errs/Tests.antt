-- ===== src/Errs/Tests.antt =====
-- errs: runs on small inputs, and the theorems at such inputs.
use go_dev_sdk.Prelude.{◌≡◌, refl, true, not, ◌&&◌, none, some, codes}
use go_dev_sdk.Prelude.Int.{pos, is_zero}
use go_dev_sdk.Errs.{
  Err, wrapped, plain, nil_coded, Error, as_err, wrap, error_text, as_type, is_err, is_code,
  slog_value, log_value,
}
use go_dev_sdk.Errs.Laws.{is_among, codes_in, is_err-codes}

abbrev not_found : Error
not_found = wrap (pos 404) (codes "not found") (plain (codes "no rows"))

abbrev handled : Err
handled = wrapped (codes "handler: ") (as_err not_found)

matched : is_err (pos 404) handled ≡ some true
unfolding is_err is_code
matched = refl

shown : error_text (λ _. codes "no rows") not_found ≡ codes "not found: no rows"
unfolding error_text
shown = refl

-- A nil *Error as a direct cause: the log value panics.
nil_cause : slog_value (as_err (wrap (pos 400) (codes "bad") nil_coded)) ≡ none
unfolding slog_value as_type log_value
nil_cause = refl

is_err-codes_example :
    is_err (pos 404) handled
    ≡ some (not (is_zero (pos 404)) && is_among (pos 404) (codes_in handled))
is_err-codes_example = is_err-codes (pos 404) handled tt
