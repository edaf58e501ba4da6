-- ===== src/Db/Protect/Colons.antt =====
-- db/bind.go: which colons sqlx.Named still sees.
use go_dev_sdk.Prelude.{◌≡◌, ◌∷◌, [], true, Bytes}
use go_dev_sdk.Db.Scan.{is_name_start}

abbrev pub Names : Bytes → Type 0
Names [] = ⊥
Names (c ∷ _) = is_name_start c ≡ true

-- Every colon is directly followed by a byte that can start a name.
abbrev pub ColonsName : Bytes → Type 0
ColonsName [] = Unit
ColonsName (c ∷ s) = (c ≡ b':' → Names s) × ColonsName s
