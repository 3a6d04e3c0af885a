-- ===== src/Logging.antt =====
-- internal/logging/logging.go: which keys the handler of log/slog is told to rename. The handler itself
-- and its output are left out.
use sentinelstream.Prelude.{
  ◌≡◌, refl, Bool-cases, inl, inr, false, List, String, str_eq, if◌then◌else◌,
}

-- `slog.Attr`, with any type of values.
pub record Attr {ℓ} (V : Type ℓ) : Type ℓ where
  pub key : String
  pub value : V

-- `ReplaceAttr`; `slog.TimeKey` is "time", and `slog.MessageKey` is "msg".
unfoldable pub replace_attr {ℓ} : {V : Type ℓ} → List String → Attr V → Attr V
replace_attr groups a =
    if str_eq a.key "time"
    then record a { key = "timestamp" }
    else if str_eq a.key "msg"
    then record a { key = "event" }
    else a

-- Behind it no key is "time" or "msg", the value is the same, and to do it twice is to do it once.
replace_attr-keys {ℓ} :
    {V : Type ℓ} (groups : List String) (a : Attr V)
    → let b = replace_attr groups a in
      (str_eq b.key "time" ≡ false)
      × (str_eq b.key "msg" ≡ false)
      × (b.value ≡ a.value)
      × (replace_attr groups b ≡ b)
unfolding replace_attr
replace_attr-keys groups a = elim (Bool-cases (str_eq a.key "time")) [
  | inl time ↦ rw time (refl, refl, refl, refl)
  | inr other ↦ elim (Bool-cases (str_eq a.key "msg")) [
    | inl msg ↦ rw (other, msg) (refl, refl, refl, refl)
    | inr rest ↦ rw (other, rest) (other, rest, refl, rw (other, rest) refl)
  ]
]
