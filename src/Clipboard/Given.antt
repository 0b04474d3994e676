-- ===== src/Clipboard/Given.antt =====
-- clipboard/sync.go: where all that is sent comes from.
use freedesk.Prelude.{
  ℕ, ◌≤◌, ◌≡◌, true, false, List, [], ◌∷◌, Option, none, some, All, is_empty, ◌==◌, ◌⊎◌, length,
}
use freedesk.Transfer.Paths.{FilePath}
use freedesk.Clipboard.{Bytes, Content, Effect, sends, on_files, cut, max_text_bytes}
use freedesk.Clipboard.World.{Event, copies, polls, World}

-- Another program put it on the clipboard, before a poll or in the middle of one.
abbrev pub put_between : Event → List (Option (ℕ × Content))
put_between (polls m f t) = m.before_files ∷ m.before_text ∷ []
put_between _ = []

abbrev pub put_before : Event → List (Option (ℕ × Content))
put_before (copies n c) = some (n, c) ∷ []
put_before (polls m f t) = m.before_check ∷ []
put_before _ = []

abbrev pub Puts : Content → List (Option (ℕ × Content)) → Type 0
Puts c [] = false ≡ true
Puts c (o ∷ os) = ((n : ℕ) × (o ≡ some (n, c))) ⊎ Puts c os

-- It came after the check of a poll, and before the reading.
pub data Between (c : Content) : List Event → Type 0 where
  between_now : {e : Event} {es : List Event} → Puts c (put_between e) → Between c (e ∷ es)
  between_later : {e : Event} {es : List Event} → Between c es → Between c (e ∷ es)

pub data Copied (c : Content) : List Event → Type 0 where
  here : {e : Event} {es : List Event} → Puts c (put_before e) → Copied c (e ∷ es)
  amid : {e : Event} {es : List Event} → Puts c (put_between e) → Copied c (e ∷ es)
  later : {e : Event} {es : List Event} → Copied c es → Copied c (e ∷ es)

-- What is sent is the text of such a content, or its files; and the content `e` that was checked was
-- not marked private: that is the same one, or it came in between.
pub data From (P M : Content → Type 0) : Effect → Type 0 where
  of_text :
      (e c : Content) (t : Bytes)
      → P e
      → e.excluded ≡ false
      → P c
      → (c ≡ e) ⊎ M c
      → c.text ≡ some t
      → is_empty t ≡ false
      → length (cut t).text ≤ max_text_bytes
      → From P M (sends (cut t))
  of_files :
      (e c : Content) (paths : List FilePath)
      → P e
      → e.excluded ≡ false
      → P c
      → (c ≡ e) ⊎ M c
      → c.files ≡ some paths
      → From P M (on_files paths)

-- What holds of all that was put.
abbrev Each : (Content → Type 0) → Option (ℕ × Content) → Type 0
Each P none = Unit
Each P (some (n, c)) = P c

module _ (P M : Content → Type 0) where
  abbrev Sound : Event → Type 0
  Sound (copies n c) = P c
  Sound (polls m f t) =
      (Each P m.before_check × Each P m.before_files × Each P m.before_text)
      × Each M m.before_files
      × Each M m.before_text
  Sound _ = Unit

  record Fine (w : World) : Type 0 where
    board : (w.board.sequence == w.sync.last_seq) ≡ false → P w.board.content
    done : All (From P M) w.done

  abbrev Near : Content → Content → Type 0
  Near e c = P c × ((c ≡ e) ⊎ M c)
