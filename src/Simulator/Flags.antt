-- ===== src/Simulator/Flags.antt =====
-- The sensor types of cmd/simulator/main.go: `strings.Split` at commas, and `strings.TrimSpace`.
pub mod Written
use Prim.Native.Char.{Char, code}
use sentinelstream.Prelude.{
  ℕ, Bool, true, false, ◌&&◌, ◌||◌, ◌==◌, leb, List, [], ◌∷◌, map, String, if◌then◌else◌,
}

-- `unicode.IsSpace`
unfoldable pub is_space : ℕ → Bool
is_space c =
    leb 9 c && leb c 13
    || c == 0x20
    || c == 0x85
    || c == 0xA0
    || c == 0x1680
    || leb 0x2000 c && leb c 0x200A
    || c == 0x2028
    || c == 0x2029
    || c == 0x202F
    || c == 0x205F
    || c == 0x3000

abbrev pub is_empty : String → Bool
is_empty String.[] = true
is_empty (String.◌∷◌ c s) = false

-- The character goes before the first part.
abbrev pub extend_first : Char → List String → List String
extend_first c [] = String.◌∷◌ c String.[] ∷ []
extend_first c (part ∷ parts) = String.◌∷◌ c part ∷ parts

-- `strings.Split(s, ",")`, which has one part more than there are commas.
unfoldable pub split_commas : String → List String
split_commas String.[] = String.[] ∷ []
split_commas (String.◌∷◌ c s) =
    let rest = split_commas s in if code c == b',' then String.[] ∷ rest else extend_first c rest

unfoldable pub trim_left : String → String
trim_left String.[] = String.[]
trim_left (String.◌∷◌ c s) = if is_space (code c) then trim_left s else String.◌∷◌ c s

unfoldable pub trim_right : String → String
trim_right String.[] = String.[]
trim_right (String.◌∷◌ c s) =
    let rest = trim_right s in
    if is_space (code c) && is_empty rest then String.[] else String.◌∷◌ c rest

-- `strings.TrimSpace`
unfoldable pub trim_space : String → String
unfolding trim_left trim_right
trim_space s = trim_right (trim_left s)

unfoldable pub sensor_types : String → List String
unfolding split_commas trim_space
sensor_types types = map trim_space (split_commas types)
