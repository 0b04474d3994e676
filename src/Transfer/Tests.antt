-- ===== src/Transfer/Tests.antt =====
-- The file channel at concrete inputs.
use freedesk.Prelude.{◌≡◌, refl, [], ◌∷◌, ◌++◌, none, some, text, replicate}
use freedesk.Transfer.Name.{
  is_bidi_control, is_bad_rune, is_reserved, split_ext, shorten, truncate_parts, truncate, is_plain,
  finish_name, safe_name,
}

keeps_plain : safe_name (text " report.v2.pdf ") ≡ some (text "report.v2.pdf")
unfolding safe_name is_bad_rune is_bidi_control finish_name is_reserved is_plain
keeps_plain = refl

no_device : safe_name (text "con.txt") ≡ none
unfolding safe_name is_bad_rune is_bidi_control finish_name is_reserved is_plain
no_device = refl

no_traversal : safe_name (text "../x") ≡ none
unfolding safe_name
no_traversal = refl

-- A device name comes back when a long name is cut to size.
device_after_cut :
    safe_name (text "CON" ++ (replicate 250 0x20 ++ text ".txt")) ≡ some (text "CON.txt")
unfolding safe_name is_bad_rune is_bidi_control finish_name is_reserved is_plain split_ext truncate
    truncate_parts shorten
device_after_cut = refl

-- A no-break space in front of a final dot survives the first pass, and not a second.
nbsp_survives : safe_name (text "a" ++ (0xA0 ∷ 0x2E ∷ [])) ≡ some (text "a" ++ (0xA0 ∷ []))
unfolding safe_name is_bad_rune is_bidi_control finish_name is_reserved is_plain
nbsp_survives = refl
