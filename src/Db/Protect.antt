-- ===== src/Db/Protect.antt =====
-- db/bind.go: hiding the punctuation that sqlx.Named would misread, and restoring it.
pub mod RoundTrip
pub mod Colons
use go_dev_sdk.Prelude.{
  ℕ, ◌+◌, Bool, true, false, ◌&&◌, not, [], ◌∷◌, ◌++◌, Bytes, codes, byte_at, length, slice, ltb,
  ◌==◌, if◌then◌else◌, Next, goto, loop, replace_byte, replace_pair,
}
use go_dev_sdk.Db.Driver.{Dialect}
use go_dev_sdk.Db.Scan.{is_name_start, literal_end}

abbrev pub cast_sentinel : ℕ
cast_sentinel = 0

abbrev pub colon_sentinel : ℕ
colon_sentinel = 1

unfoldable pub protect_casts : Bytes → Bytes
protect_casts q = replace_pair b':' b':' (cast_sentinel ∷ []) q

-- `i+1 == len(query) || !isNameStart(query[i+1])`, on the text after i.
unfoldable pub cannot_name : Bytes → Bool
unfolding is_name_start
cannot_name [] = true
cannot_name (c ∷ _) = not (is_name_start c)

unfoldable pub protect_stray_colons : Bytes → Bytes
unfolding cannot_name
protect_stray_colons [] = []
protect_stray_colons (c ∷ s) =
    (if c == b':' && cannot_name s then colon_sentinel else c) ∷ protect_stray_colons s

-- One round of the loop of `protectColons`; the state is what the builder holds.
unfoldable pub protect_colons_step : Bytes → Dialect → ℕ → Bytes → Next Bytes Bytes
protect_colons_step q d i out =
    let end = literal_end q i d in
    if ltb i end
    then goto end (out ++ replace_byte b':' (colon_sentinel ∷ []) (slice i end q))
    else goto (i + 1) (out ++ byte_at q i ∷ [])

unfoldable pub protect_colons : Bytes → Dialect → Bytes
unfolding protect_colons_step
protect_colons q d = loop (length q) (λ out. out) (protect_colons_step q d) (length q) 0 []

-- The text that `bindQuery` hands to sqlx.Named, and what it does to the text that comes back.
unfoldable pub protect : Bytes → Dialect → Bytes
protect q d = protect_stray_colons (protect_colons (protect_casts q) d)

unfoldable pub restore : Bytes → Bytes
restore s = replace_byte colon_sentinel (codes ":") (replace_byte cast_sentinel (codes "::") s)
