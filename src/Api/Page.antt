-- ===== src/Api/Page.antt =====
-- internal/api/page.go: the position in a listing as an opaque text, and the size of a page.
pub mod Cursor
use Prim.Native.Char.{Char, code}
use Prim.Native.String.{String, [], ◌∷◌, ◌++◌}
use restorelab.Prelude.{
  ℕ, zero, suc, Bool, true, false, ◌==◌, ltb, Option, none, some, str_eq, if◌then◌else◌,
}
use restorelab.Prelude.Int.{ℤ, pos, negsuc}

-- `store.Position`
pub record Position : Type 0 where
  pub started_at : ℕ
  pub id : String

-- base64url without padding, and the layout of an instant.
pub record Codec : Type 0 where
  pub encode : String → String
  pub decode : String → Option String
  pub format : ℕ → String
  pub parse : String → Option ℕ

-- `strings.Cut(s, "|")`
abbrev pub is_bar : Char → Bool
is_bar c = code c == 124

abbrev pub behind : Char → Option (String × String) → Option (String × String)
behind c none = none
behind c (some (text, id)) = some (c ∷ text, id)

unfoldable pub cut : String → Option (String × String)
cut [] = none
cut (c ∷ s) = let rest = cut s in if is_bar c then some ("", s) else behind c rest

-- `encodeCursor`
unfoldable pub encode_cursor : Codec → Position → String
encode_cursor c p = c.encode (c.format p.started_at ++ "|" ++ p.id)

abbrev pub with_instant : String → Option ℕ → Option Position
with_instant id none = none
with_instant id (some at) = some (record { started_at = at; id = id })

abbrev pub read_parts : Codec → Option (String × String) → Option Position
read_parts c none = none
read_parts c (some (text, id)) = if str_eq id "" then none else with_instant id (c.parse text)

abbrev pub read_raw : Codec → Option String → Option Position
read_raw c none = none
read_raw c (some raw) = read_parts c (cut raw)

-- `decodeCursor`; `none` is an error.
unfoldable pub decode_cursor : Codec → String → Option Position
decode_cursor c s = read_raw c (c.decode s)

abbrev pub max_page_size : ℕ
max_page_size = 200

abbrev pub default_list_limit : ℕ
default_list_limit = 50

abbrev pub sized : Option ℤ → Option ℕ
sized none = none
sized (some (negsuc n)) = none
sized (some (pos zero)) = none
sized (some (pos (suc n))) = if ltb max_page_size (suc n) then some max_page_size else some (suc n)

-- `parseLimit`, with what `strconv.Atoi` reads.
unfoldable pub parse_limit : (String → Option ℤ) → String → Option ℕ
parse_limit atoi raw = if str_eq raw "" then some default_list_limit else sized (atoi raw)
