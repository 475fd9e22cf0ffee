-- ===== src/Plan/Text.antt =====
-- The functions of Go's package strings that the plans use, on texts whose letters are ASCII: case
-- conversion leaves every other character as it is.
use Prim.Native.Char.{Char, code}
use Prim.Native.String.{String, [], ◌∷◌}
use restorelab.Prelude.{
  Bool, false, ◌||◌, ◌&&◌, ◌==◌, leb, str_eq, Option, none, some, if◌then◌else◌,
}

-- The character of `to` at the place where `from` has `c`, and `c` if it has none.
translate : String → String → Char → Char
translate [] to c = c
translate (a ∷ from) [] c = c
translate (a ∷ from) (b ∷ to) c =
    let later = translate from to c in if code a == code c then b else later

each : (Char → Char) → String → String
each f [] = []
each f (c ∷ s) = f c ∷ each f s

unfoldable pub to_upper : String → String
unfolding translate each
to_upper = each (translate "abcdefghijklmnopqrstuvwxyz" "ABCDEFGHIJKLMNOPQRSTUVWXYZ")

unfoldable pub to_lower : String → String
unfolding translate each
to_lower = each (translate "ABCDEFGHIJKLMNOPQRSTUVWXYZ" "abcdefghijklmnopqrstuvwxyz")

has_char : Char → String → Bool
has_char c [] = false
has_char c (d ∷ s) = code c == code d || has_char c s

-- `strings.ContainsAny`
unfoldable pub contains_any : String → String → Bool
unfolding has_char
contains_any [] chars = false
contains_any (c ∷ s) chars = has_char c chars || contains_any s chars

-- `unicode.IsSpace`
is_space : Char → Bool
is_space ch =
    let c = code ch in
    (leb 9 c && leb c 13)
    || c == 32
    || c == 0x85
    || c == 0xa0
    || c == 0x1680
    || (leb 0x2000 c && leb c 0x200a)
    || c == 0x2028
    || c == 0x2029
    || c == 0x202f
    || c == 0x205f
    || c == 0x3000

until_space : String → String
until_space [] = []
until_space (c ∷ s) = let rest = until_space s in if is_space c then [] else c ∷ rest

-- The first of `strings.Fields`, if there is one.
unfoldable pub first_field : String → Option String
unfolding is_space until_space
first_field [] = none
first_field (c ∷ s) =
    let later = first_field s in if is_space c then later else some (c ∷ until_space s)

-- What stands behind the last character of `s` that `chars` holds, or `whole` if there is none.
unfoldable pub after_last_any : String → String → String → String
unfolding has_char
after_last_any [] chars whole = whole
after_last_any (c ∷ s) chars whole = after_last_any s chars (if has_char c chars then s else whole)

-- `strings.TrimSuffix`
unfoldable pub trim_suffix : String → String → String
trim_suffix [] suffix = []
trim_suffix (c ∷ s) suffix =
    let rest = trim_suffix s suffix in if str_eq (c ∷ s) suffix then [] else c ∷ rest
