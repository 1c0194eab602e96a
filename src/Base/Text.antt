-- ===== src/Base/Text.antt =====
-- What the program uses of Go's `strings`, on texts of ASCII and Latin-1 characters.
use Prim.Native.Char.{Char, code}
use Prim.Native.String.{String}
use mathlib.Core.Bool.{Bool, true, false, ◌&&◌, ◌||◌}
use text.Mathlib.Text.{◌==◌ as str_eq}
use waverless.Base.Tests.{leb, ◌==◌, if◌then◌else◌}
use Prim.Native.Nat.{ℕ}

-- `unicode.IsSpace` below U+0100.
abbrev pub is_space : ℕ → Bool
is_space c = (leb 9 c && leb c 13) || c == 32 || c == 133 || c == 160

abbrev pub is_empty : String → Bool
is_empty String.[] = true
is_empty (String.◌∷◌ c s) = false

unfoldable pub trim_left : String → String
trim_left String.[] = String.[]
trim_left (String.◌∷◌ c s) =
    let rest = trim_left s in if is_space (code c) then rest else String.◌∷◌ c s

unfoldable pub trim_right : String → String
trim_right String.[] = String.[]
trim_right (String.◌∷◌ c s) =
    let rest = trim_right s in
    if is_empty rest && is_space (code c) then String.[] else String.◌∷◌ c rest

-- `strings.TrimSpace`
unfoldable pub trim_space : String → String
unfolding trim_left trim_right
trim_space s = trim_right (trim_left s)

-- `strings.HasSuffix`
unfoldable pub has_suffix : String → String → Bool
has_suffix String.[] suffix = is_empty suffix
has_suffix (String.◌∷◌ c s) suffix =
    let rest = has_suffix s suffix in if str_eq (String.◌∷◌ c s) suffix then true else rest

-- `strings.TrimSuffix`, for a suffix that is not empty.
unfoldable pub trim_suffix : String → String → String
trim_suffix String.[] suffix = String.[]
trim_suffix (String.◌∷◌ c s) suffix =
    let rest = String.◌∷◌ c (trim_suffix s suffix) in
    if str_eq (String.◌∷◌ c s) suffix then String.[] else rest

-- A character of the first text, as the one at its place in the second.
abbrev pub translate : String → String → Char → Char
translate (String.◌∷◌ from froms) (String.◌∷◌ to tos) c =
    let rest = translate froms tos c in if code from == code c then to else rest
translate _ _ c = c

-- `strings.ToUpper`, on the letters of ASCII.
unfoldable pub to_upper : String → String
to_upper String.[] = String.[]
to_upper (String.◌∷◌ c s) =
    String.◌∷◌ (translate "abcdefghijklmnopqrstuvwxyz" "ABCDEFGHIJKLMNOPQRSTUVWXYZ" c) (to_upper s)

-- `strings.ToLower`, on the letters of ASCII.
unfoldable pub to_lower : String → String
to_lower String.[] = String.[]
to_lower (String.◌∷◌ c s) =
    String.◌∷◌ (translate "ABCDEFGHIJKLMNOPQRSTUVWXYZ" "abcdefghijklmnopqrstuvwxyz" c) (to_lower s)

-- `strings.HasPrefix`, the prefix first.
unfoldable pub is_prefix : String → String → Bool
is_prefix String.[] s = true
is_prefix (String.◌∷◌ c prefix) String.[] = false
is_prefix (String.◌∷◌ c prefix) (String.◌∷◌ d s) =
    let rest = is_prefix prefix s in if code c == code d then rest else false

-- `strings.Contains`
unfoldable pub has_substring : String → String → Bool
unfolding is_prefix
has_substring String.[] sub = is_empty sub
has_substring (String.◌∷◌ c s) sub =
    let rest = has_substring s sub in if is_prefix sub (String.◌∷◌ c s) then true else rest
