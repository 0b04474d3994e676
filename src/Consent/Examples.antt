-- ===== src/Consent/Examples.antt =====
-- The theorems about the prompts, at concrete batches.
use freedesk.Prelude.{◌⊎◌, ◌-◌, ◌^◌, ◌≤◌, ◌≡◌, refl, List, [], ◌∷◌, ◌++◌, text, length, take, drop}
use freedesk.Consent.{FileOffer, file_list, human_size, tenths, number, round_half_even}
use freedesk.Consent.Listed.{rest_of, each_line, file_list_lem}
use freedesk.Transfer.Dest.{decimal}

abbrev offer : FileOffer
offer = record { name = text "setup.exe"; size = 1610612736 }

abbrev batch : List FileOffer
batch = offer ∷ offer ∷ offer ∷ offer ∷ offer ∷ offer ∷ offer ∷ []

one_and_a_half : human_size 1610612736 ≡ text "1.5 GB"
unfolding human_size round_half_even tenths number decimal
one_and_a_half = refl

nearly_a_gigabyte : human_size (2 ^ 30 - 1) ≡ text "1024.0 MB"
unfolding human_size round_half_even tenths number decimal
nearly_a_gigabyte = refl

file_list_lem_example :
    ((length batch ≤ 6) × (file_list (text "    ") batch ≡ each_line (text "    ") batch))
    ⊎ ((file_list (text "    ") batch
          ≡ each_line (text "    ") (take 5 batch) ++ rest_of (text "    ") (length (drop 5 batch)))
        × (2 ≤ length (drop 5 batch)))
file_list_lem_example = file_list_lem (text "    ") batch
