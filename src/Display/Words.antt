-- ===== src/Display/Words.antt =====
-- Which templates are shown as they are.
use hunch.Base.{
  ◌≡◌, ◌≢◌, refl, sym, ap, ◌∙◌, false, List, [], ◌∷◌, ◌++◌, append_assoc, append-nil, Bytes,
  if◌then◌else◌, is_ascii_space, any, All,
}
use hunch.Normalize.{join, blank}
use hunch.Display.{is_placeholder, end_field, fields_from, fields, display_command}

-- A word that is one field: it is not empty and holds no space.
abbrev pub IsField : Bytes → Type 0
IsField w = (w ≢ []) × All (λ c. is_ascii_space c ≡ false) w

fields_from-append :
    (field w rest : Bytes)
    → All (λ c. is_ascii_space c ≡ false) w
    → fields_from field (w ++ rest) ≡ fields_from (field ++ w) rest
unfolding fields_from
fields_from-append field [] rest h = rw append-nil
fields_from-append field (c ∷ w) rest (hc, h) =
    rw (hc, fields_from-append (field ++ c ∷ []) w rest h, append_assoc)

end_field_lem : (w : Bytes) (rest : List Bytes) → w ≢ [] → end_field w rest ≡ w ∷ rest
unfolding end_field
end_field_lem [] rest h = absurd (h refl)
end_field_lem (c ∷ w) rest h = refl

fields-join : (words : List Bytes) → All IsField words → fields_from [] (join words blank) ≡ words
unfolding fields_from join is_ascii_space
fields-join [] h = unfold end_field in refl
fields-join (w ∷ []) (hw, h) =
    sym (ap (fields_from []) (append-nil w))
    ∙ fields_from-append [] w [] hw.1
    ∙ end_field_lem w [] hw.0
fields-join (w ∷ v ∷ words) (hw, h) =
    ap (fields_from []) (append_assoc w blank (join (v ∷ words) blank))
    ∙ fields_from-append [] w (blank ++ join (v ∷ words) blank) hw.1
    ∙ end_field_lem w _ hw.0
    ∙ ap (λ (l : List Bytes). w ∷ l) (fields-join (v ∷ words) h)

-- With no raw command, a template whose words are not empty and hold no space is shown as it is if
-- none of its words is a placeholder, and nothing is shown otherwise.
pub display_command-join :
    (words : List Bytes)
    → All IsField words
    → display_command [] (join words blank)
      ≡ (if any is_placeholder words then [] else join words blank)
unfolding display_command fields
display_command-join words h = rw (fields-join words h)
