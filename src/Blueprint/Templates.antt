-- ===== src/Blueprint/Templates.antt =====
-- internal/blueprint/blueprint.go: placeholders in templates, and `strings.Count` and
-- `strings.ReplaceAll` for them.
use tearenv.Common.{
  ℕ, zero, suc, ◌-◌, Bool, true, false, Text, codes, cut_prefix, is_some, [], ◌∷◌, ◌++◌, length,
  if◌then◌else◌,
}

abbrev pub identity_slug_template : Text
identity_slug_template = codes "{{ .IdentitySlug }}"

abbrev pub blueprint_name_template : Text
blueprint_name_template = codes "{{ .BlueprintName }}"

-- The first argument counts the bytes of an occurrence that are still to be skipped.
unfoldable pub count_from : ℕ → Text → Text → ℕ
count_from skip old [] = 0
count_from (suc skip) old (c ∷ s) = count_from skip old s
count_from zero old (c ∷ s) = elim (is_some (cut_prefix (c ∷ s) old)) [
  | true ↦ suc (count_from (length old - 1) old s)
  | false ↦ count_from zero old s
]

-- `strings.Count` of a text that is not empty.
unfoldable pub count : Text → Text → ℕ
unfolding count_from
count s old = count_from 0 old s

unfoldable pub replace_from : ℕ → Text → Text → Text → Text
replace_from skip old new [] = []
replace_from (suc skip) old new (c ∷ s) = replace_from skip old new s
replace_from zero old new (c ∷ s) = elim (is_some (cut_prefix (c ∷ s) old)) [
  | true ↦ new ++ replace_from (length old - 1) old new s
  | false ↦ c ∷ replace_from zero old new s
]

-- `strings.ReplaceAll` of a text that is not empty.
unfoldable pub replace_all : Text → Text → Text → Text
unfolding replace_from
replace_all s old new = replace_from 0 old new s

-- `replaceTemplateValues`: a range over a map takes its two entries in either order.
unfoldable pub replace_template_values : Bool → Text → Text → Text → Text
unfolding replace_all
replace_template_values slug_first value slug name =
    if slug_first
    then replace_all (replace_all value identity_slug_template slug) blueprint_name_template name
    else replace_all (replace_all value blueprint_name_template name) identity_slug_template slug

-- `renderTemplateValue`.
unfoldable pub render_template_value : Text → Text
unfolding replace_all
render_template_value value =
    replace_all (replace_all value identity_slug_template (codes "identity"))
      blueprint_name_template (codes "blueprint")
