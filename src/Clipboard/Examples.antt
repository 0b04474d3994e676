-- ===== src/Clipboard/Examples.antt =====
-- The theorems about the clipboard, at concrete inputs, and tests of its definitions.
use freedesk.Prelude.{◌≡◌, refl, true, false, List, [], ◌∷◌, none, some, arith, text, All}
use freedesk.Clipboard.{
  Bytes, Content, Board, Sync, Msg, sends, offer, poll, written, accepts, handle, put_files,
  new_sync, is_rune_start, back_to_start, truncate_utf8,
}
use freedesk.Clipboard.Runes.{Rune, IsRune, encode, fitting, truncate_utf8-encode}
use freedesk.Clipboard.World.{Event, undisturbed, copies, receives, polls, stops, step, run, begun}
use freedesk.Clipboard.Numbers.{ideal, at_rest, Grows, run-ideal}

abbrev plain : Bytes → Content
plain s = record { excluded = false; files = none; text = some s }

abbrev start : Board
start = record { sequence = 7; content = plain (text "old") }

abbrev sync : Sync
sync = record { own_seq = 0; last_seq = 7; last_applied = []; stopped = false }

abbrev from_viewer : Bytes → Msg
from_viewer s = record { t = text "cb"; text = s; trunc = false }

-- The viewer's text, its poll, the operator's copy and two polls, and a private copy.
abbrev life : List Event
life =
    polls undisturbed true true
    ∷ receives (some (from_viewer (text "theirs"))) (written 9 (plain (text "theirs")))
    ∷ polls undisturbed true true
    ∷ copies 10 (plain (text "mine"))
    ∷ polls undisturbed true true
    ∷ polls undisturbed true true
    ∷ copies 11 (record { excluded = true; files = none; text = some (text "secret") })
    ∷ polls undisturbed true true
    ∷ stops
    ∷ copies 12 (plain (text "later"))
    ∷ polls undisturbed true true
    ∷ []

life_sends : (run true (begun sync start) life).done ≡ sends (from_viewer (text "mine")) ∷ []
unfolding run step poll handle put_files accepts offer
life_sends = refl

begins : new_sync (text "text") true start ≡ some sync
unfolding new_sync
begins = refl

life-Grows : Grows 7 life
life-Grows = ground arith

run-ideal_example :
    (run true (begun sync start) life).done ≡ (ideal true (at_rest (plain (text "old"))) life).done
run-ideal_example = run-ideal true (text "text") true start sync life begins life-Grows

-- What a password manager marks private, copied after the check of a poll that saw another text, is
-- sent by that poll.
private_sent :
    (run true (begun sync start) (
      copies 8 (plain (text "mine"))
      ∷ polls
          (record undisturbed {
            before_text =
                some (9, record { excluded = true; files = none; text = some (text "secret") });
          })
          true
          true
      ∷ [])).done
    ≡ sends (from_viewer (text "secret")) ∷ []
unfolding run step poll offer
private_sent = refl

-- The viewer's last text, copied again by the operator, is not offered.
copied_again :
    (run true (begun sync start) (
      receives (some (from_viewer (text "theirs"))) (written 8 (plain (text "theirs")))
      ∷ copies 9 (plain (text "mine"))
      ∷ polls undisturbed true true
      ∷ copies 10 (plain (text "theirs"))
      ∷ polls undisturbed true true
      ∷ [])).done
    ≡ sends (from_viewer (text "mine")) ∷ []
unfolding run step poll handle accepts offer
copied_again = refl

-- A copy that cannot be read at its first poll is never sent.
busy_lost :
    (run true (begun sync start) (
      copies 8 (plain (text "mine"))
      ∷ polls undisturbed false false
      ∷ polls undisturbed true true
      ∷ [])).done
    ≡ []
unfolding run step poll offer
busy_lost = refl

-- `ü`, twice, and a letter.
abbrev umlauts : List Rune
umlauts =
    record { first = 0xC3; others = 0xBC ∷ [] }
    ∷ record { first = 0xC3; others = 0xBC ∷ [] }
    ∷ record { first = 0x61; others = [] }
    ∷ []

umlauts-IsRune : All IsRune umlauts
unfolding is_rune_start
umlauts-IsRune = ((refl, (refl, tt)), ((refl, (refl, tt)), ((refl, tt), tt)))

truncate_utf8_cut : truncate_utf8 (encode umlauts) 3 ≡ 0xC3 ∷ 0xBC ∷ []
unfolding truncate_utf8 back_to_start is_rune_start
truncate_utf8_cut = refl

truncate_utf8-encode_example : truncate_utf8 (encode umlauts) 3 ≡ encode (fitting 3 umlauts)
truncate_utf8-encode_example = truncate_utf8-encode umlauts 3 umlauts-IsRune
