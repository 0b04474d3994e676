-- ===== src/Clipboard/Numbers.antt =====
-- clipboard/sync.go: the sequence numbers, against a flag that says whether another program has
-- changed the clipboard since it was last looked at.
use mathlib.Core.List.{append-nil}
use freedesk.Prelude.{
  ℕ, ◌≤◌, ◌<◌, ◌≡◌, refl, ap, sym, subst, ◌∙◌, Bool, true, false, not, List, [], ◌∷◌, ◌++◌, Option,
  none, some, arith, is_empty, if◌then◌else◌, ◌||◌, ◌&&◌, ◌==◌, Text, Bool-cases, inl, inr,
  Option-cases, is_some, eq_text, text, leb, length,
}
use freedesk.Transfer.Paths.{FilePath}
use freedesk.Clipboard.{
  Bytes, Content, Board, Sync, Effect, offer, readable, poll, Written, failed, written, accepts,
  handle, put_files, new_sync, apply_text, apply_files, sends, on_files, offer_text, offer_first,
  cut, Msg, max_text_bytes,
}
use freedesk.Clipboard.World.{
  Event, copies, receives, puts_files, polls, stops, World, step, run, begun, after_poll, Midway,
  seen, change, change_all, polled, new_sync-begun,
}

-- The clipboard without numbers. `fresh`: another program's change that was not looked at yet.
pub record Shared : Type 0 where
  pub content : Content
  pub fresh : Bool
  pub last_applied : Bytes
  pub stopped : Bool
  pub done : List Effect

-- What should be offered of a content, and which message's text should be put on the clipboard.
abbrev pub shown_files : Option (List FilePath) → List Effect
shown_files none = []
shown_files (some paths) = on_files paths ∷ []

abbrev pub shown_text : Option Bytes → List Effect
shown_text none = []
shown_text (some t) = sends (cut t) ∷ []

abbrev pub is_new : Bytes → Option Bytes → Bool
is_new applied none = false
is_new applied (some t) = not (is_empty t) && not (eq_text t applied)

abbrev pub shown : Bool → Bytes → Content → List Effect
shown shares applied c =
    if not c.excluded && (shares && is_some c.files)
    then shown_files c.files
    else if not c.excluded && is_new applied c.text
    then shown_text c.text
    else []

abbrev pub fits : Bool → Bytes → Option Msg → Option Bytes
fits stopped applied none = none
fits stopped applied (some m) =
    if eq_text m.t (text "cb")
      && (not (is_empty m.text)
          && (leb (length m.text) max_text_bytes && (not stopped && not (eq_text m.text applied))))
    then some m.text
    else none

text-shown :
    (applied : Bytes) (o : Option Bytes)
    → offer_text applied o ≡ (if is_new applied o then shown_text o else [])
text-shown applied none = refl
text-shown applied (some t) = ground arith

pub offer-shown :
    (shares : Bool) (applied : Bytes) (c : Content)
    → offer shares applied c ≡ shown shares applied c
unfolding offer
offer-shown shares applied c = by_parts c.excluded shares c.files
  where
    by_parts :
        (e f : Bool) (fs : Option (List FilePath))
        → (if e then [] else offer_first applied (if f then fs else none) c.text) ≡ (
            if not e && (f && is_some fs)
            then shown_files fs
            else if not e && is_new applied c.text
            then shown_text c.text
            else [])
    by_parts true f fs = refl
    by_parts false true (some paths) = refl
    by_parts false true none = text-shown applied c.text
    by_parts false false fs = text-shown applied c.text

accepts-fits :
    (stopped : Bool) (applied : Bytes) (o : Option Msg)
    → accepts stopped applied o ≡ fits stopped applied o
unfolding accepts
accepts-fits stopped applied none = refl
accepts-fits stopped applied (some m) = ground arith

abbrev text_put : Shared → Option Bytes → Written → Shared
text_put v none r = v
text_put v (some t) failed = v
text_put v (some t) (written seq c) = record v { content = c; fresh = false; last_applied = t }

abbrev files_put : Shared → Written → Shared
files_put v failed = v
files_put v (written seq c) = record v { content = c; fresh = false }

abbrev looked : Bool → Shared → Content → Shared
looked shares v c = record v { fresh = false; done = v.done ++ shown shares v.last_applied c }

abbrev other_copies : Option (ℕ × Content) → Shared → Shared
other_copies none v = v
other_copies (some (n, c)) v = record v { content = c; fresh = true }

abbrev offered : Bool → Shared → Midway → (files_read text_read : Bool) → Shared
offered shares v m f t =
    if not v.stopped && v.fresh then looked shares v (readable f t (seen m v.content)) else v

-- A change of another program is offered at the next poll, once; one of our own never is. What comes
-- during a poll is a change for the next one.
unfoldable pub ideal_step : Bool → Shared → Event → Shared
ideal_step shares v (copies seq c) = record v { content = c; fresh = true }
ideal_step shares v (receives m r) = text_put v (fits v.stopped v.last_applied m) r
ideal_step shares v (puts_files paths r) = if is_empty paths || v.stopped then v else files_put v r
ideal_step shares v (polls m f t) =
    other_copies m.before_text
      (other_copies m.before_files (other_copies m.before_check (offered shares v m f t)))
ideal_step shares v stops = record v { stopped = true }

unfoldable pub ideal : Bool → Shared → List Event → Shared
ideal shares v [] = v
ideal shares v (e ∷ es) = ideal shares (ideal_step shares v e) es

abbrev pub at_rest : Content → Shared
at_rest c = record { content = c; fresh = false; last_applied = []; stopped = false; done = [] }

abbrev pub number_of : Option (ℕ × Content) → ℕ → ℕ
number_of none seq = seq
number_of (some (n, c)) seq = n

-- The system's number grows with every change.
abbrev pub number_after : ℕ → Event → ℕ
number_after seq (copies n c) = n
number_after seq (receives m (written n c)) = n
number_after seq (puts_files paths (written n c)) = n
number_after seq (polls m f t) =
    number_of m.before_text (number_of m.before_files (number_of m.before_check seq))
number_after seq _ = seq

abbrev pub Above : ℕ → Option (ℕ × Content) → Type 0
Above seq none = Unit
Above seq (some (n, c)) = seq < n

abbrev pub GrowsMidway : ℕ → Event → Type 0
GrowsMidway seq (polls m f t) =
    let checked = number_of m.before_check seq in
    Above seq m.before_check
    × Above checked m.before_files
    × Above (number_of m.before_files checked) m.before_text
GrowsMidway seq _ = Unit

abbrev pub is_change : Event → Bool
is_change (copies n c) = true
is_change (receives m (written n c)) = true
is_change (puts_files paths (written n c)) = true
is_change _ = false

abbrev pub Grows : ℕ → List Event → Type 0
Grows seq [] = Unit
Grows seq (e ∷ es) =
    (is_change e ≡ true → seq < number_after seq e)
    × GrowsMidway seq e
    × Grows (number_after seq e) es

-- What the numbers stand for.
abbrev view : World → Shared
view w = record {
  content = w.board.content;
  fresh = not (w.board.sequence == w.sync.last_seq);
  last_applied = w.sync.last_applied;
  stopped = w.sync.stopped;
  done = w.done;
}

abbrev Ordered : ℕ → World → Type 0
Ordered top w =
    (w.sync.own_seq ≤ w.sync.last_seq)
    × (w.sync.last_seq ≤ w.board.sequence)
    × (w.board.sequence ≤ top)

same_number : (n : ℕ) → not (n == n) ≡ false
same_number n = ground arith

text_put-view :
    (w : World) (o : Option Bytes) (r : Written)
    → let (s, b) = apply_text w.sync w.board o r in
      text_put (view w) o r ≡ view (record w { sync = s; board = b })
text_put-view w none r = refl
text_put-view w (some t) failed = refl
text_put-view w (some t) (written n c) =
    ap (λ b. record (view w) { content = c; fresh = b; last_applied = t }) (sym (same_number n))

files_put-view :
    (w : World) (r : Written)
    → let (s, b) = apply_files w.sync w.board r in
      files_put (view w) r ≡ view (record w { sync = s; board = b })
files_put-view w failed = refl
files_put-view w (written n c) =
    ap (λ b. record (view w) { content = c; fresh = b }) (sym (same_number n))

poll-view :
    (shares : Bool) (w : World) (c : Content)
    → w.sync.own_seq ≤ w.sync.last_seq
    → w.sync.last_seq ≤ w.board.sequence
    → let after = after_poll w (poll shares w.sync w.board.sequence c) in
      (if not (w.board.sequence == w.sync.last_seq) then looked shares (view w) c else view w)
      ≡ view after
unfolding poll
poll-view shares w c own last = elim (Bool-cases (w.board.sequence == w.sync.last_seq)) [
  | inl same ↦ rw (same, append-nil w.done) (rw same refl)
  | inr new ↦
      let other : (w.board.sequence == w.sync.own_seq) ≡ false = ground arith in
      rw (new, other, offer-shown shares w.sync.last_applied c)
        (ap
          (λ b. record (view w) { fresh = b; done = w.done ++ shown shares w.sync.last_applied c })
          (sym (same_number w.board.sequence)))
]

abbrev Behind : ℕ → World → Type 0
Behind top w = (w.sync.last_seq ≤ top) × (w.board.sequence ≤ top)

change-view :
    (top : ℕ) (o : Option (ℕ × Content)) (w : World)
    → Above top o
    → Behind top w
    → (other_copies o (view w) ≡ view (change o w)) × Behind (number_of o top) (change o w)
change-view top none w g b = (refl, b)
change-view top (some (n, c)) w g b =
    let new : not (n == w.sync.last_seq) ≡ true = ground arith in
    (ap (λ x. record (view w) { content = c; fresh = x }) (sym new), (omega arith, omega arith))

change_all-view :
    (top : ℕ) (m : Midway) (f t : Bool) (w : World)
    → GrowsMidway top (polls m f t)
    → Behind top w
    → other_copies m.before_text
        (other_copies m.before_files (other_copies m.before_check (view w)))
      ≡ view (change_all m w)
change_all-view top m f t w (a, b, c) h =
    let (e, h') = change-view top m.before_check w a h in
    let w' = change m.before_check w in
    let (e', h'') = change-view (number_of m.before_check top) m.before_files w' b h' in
    let w'' = change m.before_files w' in
    let (e'', _) =
      change-view (number_of m.before_files (number_of m.before_check top)) m.before_text w'' c
        h'' in
    ap (λ v. other_copies m.before_text (other_copies m.before_files v)) e
    ∙ (ap (other_copies m.before_text) e' ∙ e'')

change-Ordered :
    (top : ℕ) (o : Option (ℕ × Content)) (w : World)
    → Above top o
    → Ordered top w
    → Ordered (number_of o top) (change o w)
change-Ordered top none w g h = h
change-Ordered top (some (n, c)) w g h = (h.0, omega arith, omega arith)

polled-Ordered :
    (shares : Bool) (top : ℕ) (w : World) (m : Midway) (f t : Bool)
    → Ordered top w
    → Ordered top (polled shares w m f t)
unfolding poll
polled-Ordered shares top w m f t o = ground arith

unless-stopped :
    (stopped fresh : Bool) (w after : World) (v : Shared)
    → (if fresh then v else view w) ≡ view after
    → (if not stopped && fresh then v else view w) ≡ view (if stopped then w else after)
unless-stopped true fresh w after v h = refl
unless-stopped false fresh w after v h = h

step-view :
    (shares : Bool) (top : ℕ) (w : World) (e : Event)
    → (is_change e ≡ true → top < number_after top e)
    → GrowsMidway top e
    → Ordered top w
    → ideal_step shares (view w) e ≡ view (step shares w e)
unfolding step ideal_step handle put_files
step-view shares top w (copies n c) g k o =
    let new : not (n == w.sync.last_seq) ≡ true = ground (arith, g refl) in
    ap (λ b. record (view w) { content = c; fresh = b }) (sym new)
step-view shares top w (receives m r) g k o =
    ap (λ x. text_put (view w) x r) (sym (accepts-fits w.sync.stopped w.sync.last_applied m))
    ∙ text_put-view w (accepts w.sync.stopped w.sync.last_applied m) r
step-view shares top w (puts_files paths r) g k o =
    elim (Bool-cases (is_empty paths || w.sync.stopped)) [
      | inl e ↦ rw e refl
      | inr e ↦ rw e (files_put-view w r)
    ]
step-view shares top w (polls m f t) g k o =
    let p = polled-Ordered shares top w m f t o in
    ap
      (λ v.
        other_copies m.before_text (other_copies m.before_files (other_copies m.before_check v)))
      (unless-stopped w.sync.stopped (not (w.board.sequence == w.sync.last_seq)) w _ _
        (poll-view shares w (readable f t (seen m w.board.content)) o.0 o.1))
    ∙ change_all-view top m f t (polled shares w m f t) k (omega (arith, p.1, p.2), p.2)
step-view shares top w stops g k o = refl

apply_text-Ordered :
    (top n : ℕ) (c : Content) (w : World) (o : Option Bytes)
    → top < n
    → Ordered top w
    → let (s, b) = apply_text w.sync w.board o (written n c) in
      Ordered n (record w { sync = s; board = b })
apply_text-Ordered top n c w none g o = ground arith
apply_text-Ordered top n c w (some t) g o = ground arith

step-Ordered :
    (shares : Bool) (top : ℕ) (w : World) (e : Event)
    → (is_change e ≡ true → top < number_after top e)
    → GrowsMidway top e
    → Ordered top w
    → Ordered (number_after top e) (step shares w e)
unfolding step handle put_files
step-Ordered shares top w (copies n c) g k o = ground (arith, g refl)
step-Ordered shares top w (receives m (written n c)) g k o =
    apply_text-Ordered top n c w (accepts w.sync.stopped w.sync.last_applied m) (g refl) o
step-Ordered shares top w (receives m failed) g k o =
    elim (Option-cases (accepts w.sync.stopped w.sync.last_applied m)) [
      | inl e ↦ rw e o
      | inr (t, e) ↦ rw e o
    ]
step-Ordered shares top w (puts_files paths (written n c)) g k o = ground (arith, g refl)
step-Ordered shares top w (puts_files paths failed) g k o = ground arith
step-Ordered shares top w (polls m f t) g (a, b, c) o =
    let checked = number_of m.before_check top in
    let w1 = polled shares w m f t in
    let w2 = change m.before_check w1 in
    change-Ordered (number_of m.before_files checked) m.before_text (change m.before_files w2) c (
      change-Ordered checked m.before_files w2 b
        (change-Ordered top m.before_check w1 a (polled-Ordered shares top w m f t o)))
step-Ordered shares top w stops g k o = o

ideal-view :
    (shares : Bool) (top : ℕ) (w : World) (es : List Event)
    → Grows top es
    → Ordered top w
    → ideal shares (view w) es ≡ view (run shares w es)
unfolding ideal run
ideal-view shares top w [] g o = refl
ideal-view shares top w (e ∷ es) (g, k, gs) o =
    ap (λ v. ideal shares v es) (step-view shares top w e g k o)
    ∙ ideal-view shares (number_after top e) (step shares w e) es gs
        (step-Ordered shares top w e g k o)

-- A session's clipboard, where the system's number grows with every change: all that is sent and
-- offered to the viewer is what the flag says. Another program's change is looked at once, at the
-- next poll, as the reads of that poll see it; it is offered if it is not marked private then, its
-- files if the session shares files and they could be read, or else its text, if it could be read, is
-- not empty and is not what the viewer sent last. What the session itself has put there never is, nor
-- what was there before it began.
pub run-ideal :
    (shares : Bool) (mode : Text) (opens : Bool) (b : Board) (s : Sync) (es : List Event)
    → new_sync mode opens b ≡ some s
    → Grows b.sequence es
    → (run shares (begun s b) es).done ≡ (ideal shares (at_rest b.content) es).done
run-ideal shares mode opens b s es e g =
    let made = new_sync-begun mode opens b s e in
    subst (λ x. (run shares (begun x b) es).done ≡ (ideal shares (at_rest b.content) es).done) made
      (sym (
        ap (λ x. (ideal shares (record (at_rest b.content) { fresh = x }) es).done)
          (sym (same_number b.sequence))
        ∙ ap (λ v. v.done) (ideal-view shares b.sequence _ es g (ground arith))))
