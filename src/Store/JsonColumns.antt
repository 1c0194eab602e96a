-- ===== src/Store/JsonColumns.antt =====
-- pkg/store/mysql/model/types.go: text maps as JSON columns.
use waverless.Base.{◌≡◌, refl, ap, Option, none, some, [], ◌∷◌, String}
use waverless.Base.Dict.{StringMap}
use waverless.Store.Tables.{Json, text, number, other, JsonMap}

abbrev pub as_text : StringMap String → StringMap Json
as_text [] = []
as_text (entry ∷ rest) = (entry.0, text entry.1) ∷ as_text rest

unfoldable pub string_map_to_json_map : Option (StringMap String) → JsonMap
string_map_to_json_map none = none
string_map_to_json_map (some m) = some (as_text m)

-- The values that are no text are left out.
abbrev pub only_text : StringMap Json → StringMap String
only_text [] = []
only_text ((key, text s) ∷ rest) = (key, s) ∷ only_text rest
only_text ((key, number n) ∷ rest) = only_text rest
only_text ((key, other) ∷ rest) = only_text rest

unfoldable pub json_map_to_string_map : JsonMap → Option (StringMap String)
json_map_to_string_map none = none
json_map_to_string_map (some m) = some (only_text m)

only_text-as_text : (m : StringMap String) → only_text (as_text m) ≡ m
only_text-as_text [] = refl
only_text-as_text (entry ∷ rest) = ap (λ later. entry ∷ later) (only_text-as_text rest)

-- A text map comes back from its JSON column as it was.
pub json_map_to_string_map-string_map_to_json_map :
    (m : Option (StringMap String)) → json_map_to_string_map (string_map_to_json_map m) ≡ m
unfolding json_map_to_string_map string_map_to_json_map
json_map_to_string_map-string_map_to_json_map none = refl
json_map_to_string_map-string_map_to_json_map (some m) = ap some (only_text-as_text m)
