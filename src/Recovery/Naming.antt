-- ===== src/Recovery/Naming.antt =====
-- internal/recovery/naming.go: the name of a temporary workload, and small helpers.
use Prim.Native.Char.{Char, code}
use Prim.Native.String.{String, [], ◌∷◌, ◌++◌}
use restorelab.Prelude.{
  ℕ, zero, suc, ◌-◌, Bool, true, false, not, ◌||◌, ◌&&◌, ◌==◌, leb, str_eq, if◌then◌else◌,
}
use restorelab.Plan.Text.{to_lower}

abbrev pub max_temp_name_len : ℕ
max_temp_name_len = 63

abbrev pub len : String → ℕ
len [] = 0
len (c ∷ s) = suc (len s)

abbrev pub first_non_empty : String → String → String
first_non_empty a b = if str_eq a "" then b else a

-- a-z and 0-9
abbrev pub is_slug_char : Char → Bool
is_slug_char ch = let c = code ch in (leb 97 c && leb c 122) || (leb 48 c && leb c 57)

-- The loop of `sanitizeSlug`: `prev_dash`, and whether the builder holds anything yet.
slug_loop : Bool → Bool → String → String
slug_loop prev_dash started [] = []
slug_loop prev_dash started (c ∷ s) =
    let kept = c ∷ slug_loop false true s in
    let dashed = "-" ++ slug_loop true true s in
    let skipped = slug_loop prev_dash started s in
    if is_slug_char c then kept else if not prev_dash && started then dashed else skipped

abbrev pub is_dash : Char → Bool
is_dash c = code c == b'-'

trim_left : String → String
trim_left [] = []
trim_left (c ∷ s) = let rest = trim_left s in if is_dash c then rest else c ∷ s

abbrev pub cons_unless_dash : Char → String → String
cons_unless_dash c [] = if is_dash c then [] else c ∷ []
cons_unless_dash c (d ∷ s) = c ∷ d ∷ s

trim_right : String → String
trim_right [] = []
trim_right (c ∷ s) = cons_unless_dash c (trim_right s)

-- `strings.Trim(s, "-")`
trim_dashes : String → String
unfolding trim_left trim_right
trim_dashes s = trim_right (trim_left s)

unfoldable pub sanitize_slug : String → String
unfolding slug_loop trim_dashes
sanitize_slug s = trim_dashes (slug_loop false false (to_lower s))

take_text : ℕ → String → String
take_text zero s = []
take_text (suc n) [] = []
take_text (suc n) (c ∷ s) = c ∷ take_text n s

join_name : String → String → String
join_name slug ts = "restorelab-" ++ slug ++ "-" ++ ts

cut_slug : String → ℕ → String
unfolding trim_dashes take_text
cut_slug slug overflow =
    if leb (len slug) overflow then "" else trim_dashes (take_text (len slug - overflow) slug)

-- `ts` is the instant in the layout 20060102150405. A slug is ASCII, so characters are bytes.
unfoldable pub temp_workload_name : String → String → String
unfolding sanitize_slug join_name cut_slug
temp_workload_name source_id ts =
    let slug = sanitize_slug source_id in
    let name = join_name slug ts in
    let cut = cut_slug slug (len name - max_temp_name_len) in
    if leb (len name) max_temp_name_len
    then name
    else if str_eq cut ""
    then "restorelab-" ++ ts
    else join_name cut ts
