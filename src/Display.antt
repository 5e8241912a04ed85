-- ===== src/Display.antt =====
-- ipc/runnable.go: the text that is shown for a suggestion. strings.Fields is modelled for ASCII
-- space.
pub mod Words
mod Examples
use hunch.Base.{
  ℕ, Bool, true, false, List, [], ◌∷◌, ◌++◌, Bytes, codes, if◌then◌else◌, is_ascii_space, contains,
  any,
}

unfoldable pub is_placeholder : Bytes → Bool
unfolding contains
is_placeholder = contains (
    codes "FLAG"
    ∷ codes "PATH"
    ∷ codes "REPO"
    ∷ codes "HASH"
    ∷ codes "NUM"
    ∷ codes "STR"
    ∷ codes "KWARGS"
    ∷ [])

end_field : Bytes → List Bytes → List Bytes
end_field [] rest = rest
end_field (c ∷ field) rest = (c ∷ field) ∷ rest

-- The fields behind the bytes `field` of one that has begun.
fields_from : Bytes → Bytes → List Bytes
unfolding end_field is_ascii_space
fields_from field [] = end_field field []
fields_from field (c ∷ s) =
    let ended = end_field field (fields_from [] s) in
    let longer = fields_from (field ++ c ∷ []) s in if is_ascii_space c then ended else longer

unfoldable pub fields : Bytes → List Bytes
unfolding fields_from
fields s = fields_from [] s

unfoldable pub display_command : Bytes → Bytes → Bytes
unfolding fields is_placeholder
display_command [] template = if any is_placeholder (fields template) then [] else template
display_command (c ∷ raw) template = c ∷ raw
