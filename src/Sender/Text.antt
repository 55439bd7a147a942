-- ===== src/Sender/Text.antt =====
-- The text functions that the sender calls: `strings.TrimSpace` of Go's standard library, over the
-- characters that `unicode.IsSpace` names, and NormalizeBotName of internal/deliveryrules/rules.go.
-- `strings.ToLower`, which goes by the Unicode tables, is the argument `to_lower`.
use Prim.Native.Char.{code}
use Prim.Native.String.{String}
use clawside.Common.{ℕ, Bool, ◌&&◌, ◌||◌, ◌==◌, leb, if◌then◌else◌, str_eq}

is_space : ℕ → Bool
is_space c =
    leb 9 c && leb c 13
    || c == 32
    || c == 0x85
    || c == 0xa0
    || c == 0x1680
    || leb 0x2000 c && leb c 0x200a
    || c == 0x2028
    || c == 0x2029
    || c == 0x202f
    || c == 0x205f
    || c == 0x3000

trim_left : String → String
unfolding is_space
trim_left String.[] = String.[]
trim_left (String.◌∷◌ c s) = if is_space (code c) then trim_left s else String.◌∷◌ c s

trim_right : String → String
unfolding is_space
trim_right String.[] = String.[]
trim_right (String.◌∷◌ c s) =
    let rest = trim_right s in if is_space (code c) && str_eq rest "" then "" else String.◌∷◌ c rest

unfoldable pub trim_space : String → String
unfolding trim_left trim_right
trim_space s = trim_left (trim_right s)

unfoldable pub is_blank_text : String → Bool
is_blank_text s = str_eq (trim_space s) ""

unfoldable pub normalize_bot_name : (String → String) → String → String
normalize_bot_name to_lower value = to_lower (trim_space value)
