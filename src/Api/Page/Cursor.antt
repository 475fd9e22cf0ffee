-- ===== src/Api/Page/Cursor.antt =====
-- A cursor names the position that it was made of.
use Prim.Native.String.{String, [], ◌∷◌, ◌++◌}
use Prim.Native.String.append.{nil, cons}
use restorelab.Prelude.{
  ℕ, ◌≡◌, refl, ap, ◌∙◌, Bool, true, false, some, str_eq, if◌then◌else◌, Bool-cases, inl, inr,
}
use restorelab.Api.Page.{Position, Codec, is_bar, cut, encode_cursor, decode_cursor}

unfoldable pub has_bar : String → Bool
has_bar [] = false
has_bar (c ∷ s) = if is_bar c then true else has_bar s

-- What the documentation of encoding/base64 and of the layout promises: both read back what they
-- wrote, and an instant is written without a bar.
pub record Faithful (c : Codec) : Type 0 where
  pub decodes : (s : String) → c.decode (c.encode s) ≡ some s
  pub parses : (at : ℕ) → c.parse (c.format at) ≡ some at
  pub unbarred : (at : ℕ) → has_bar (c.format at) ≡ false

cut-append : (text id : String) → has_bar text ≡ false → cut (text ++ "|" ++ id) ≡ some (text, id)
unfolding cut has_bar
cut-append [] id h =
    ap cut (nil ("|" ++ id)) ∙ ap cut (cons _ "" id) ∙ ap (λ t. some ("", t)) (nil id)
cut-append (c ∷ text) id h = elim (Bool-cases (is_bar c)) [
  | inl bar ↦ absurd (differ (rw bar at h))
  | inr plain ↦
      ap cut (cons c text ("|" ++ id)) ∙ rw (plain, cut-append text id (rw plain at h)) refl
]
  where
    differ : true ≡ false → ⊥
    differ h = cc

-- A page's cursor leads back to the position that it was made of, the last row of the page; every row
-- has an id.
pub decode_cursor-encode_cursor :
    (c : Codec) (p : Position)
    → Faithful c
    → str_eq p.id "" ≡ false
    → decode_cursor c (encode_cursor c p) ≡ some p
unfolding decode_cursor encode_cursor
decode_cursor-encode_cursor c p f named =
    rw
      (
        f.decodes (c.format p.started_at ++ "|" ++ p.id),
        cut-append (c.format p.started_at) p.id (f.unbarred p.started_at),
        named,
        f.parses p.started_at,
      )
      refl
