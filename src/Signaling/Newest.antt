-- ===== src/Signaling/Newest.antt =====
-- signaling/rtdb_transport.go: the status channel, which drops the oldest where nobody reads.
use mathlib.Core.List.{append_assoc}
use freedesk.Prelude.{
  ◌≤◌, ◌≡◌, refl, ap, ◌∙◌, List, [], ◌∷◌, ◌++◌, Option, none, some, Text, arith, length, drop,
  length-append, Bool-cases, inl, inr, ltb,
}
use freedesk.Signaling.Stream.{emit_status, status_places}

-- A status is emitted, or the reader takes one, if there is one.
pub data Turn : Type 0 where
  emits : Text → Turn
  reads : Turn

-- What was read, and what is in the channel.
abbrev pub take_one : List Text → List Text → List Text × List Text
take_one read [] = (read, [])
take_one read (s ∷ buffer) = (read ++ (s ∷ []), buffer)

unfoldable pub channel : List Text → List Text → List Turn → List Text × List Text
channel read buffer [] = (read, buffer)
channel read buffer (emits s ∷ ts) = channel read (emit_status s buffer) ts
channel read buffer (reads ∷ ts) =
    let (read', buffer') = take_one read buffer in channel read' buffer' ts

abbrev pub newest : Option Text → List Turn → Option Text
newest o [] = o
newest o (emits s ∷ ts) = newest (some s) ts
newest o (reads ∷ ts) = newest o ts

abbrev pub last : List Text → Option Text
last [] = none
last (s ∷ []) = some s
last (s ∷ t ∷ ss) = last (t ∷ ss)

last-snoc : (xs : List Text) (s : Text) → last (xs ++ (s ∷ [])) ≡ some s
last-snoc [] s = refl
last-snoc (x ∷ []) s = refl
last-snoc (x ∷ y ∷ xs) s = last-snoc (y ∷ xs) s

last-emit : (s : Text) (read buffer : List Text) → last (read ++ emit_status s buffer) ≡ some s
unfolding emit_status
last-emit s read buffer = elim (Bool-cases (ltb (length buffer) status_places)) [
  | inl e ↦ rw (e, ← append_assoc read buffer (s ∷ [])) (last-snoc (read ++ buffer) s)
  | inr e ↦
      rw (e, ← append_assoc read (drop 1 buffer) (s ∷ [])) (last-snoc (read ++ drop 1 buffer) s)
]

length-emit :
    (s : Text) (buffer : List Text)
    → length buffer ≤ status_places
    → length (emit_status s buffer) ≤ status_places
unfolding emit_status
length-emit s [] h = omega arith
length-emit s (b ∷ buffer) h =
    ground (arith, length-append buffer (s ∷ []), length-append (b ∷ buffer) (s ∷ []))

channel-last :
    (read buffer : List Text) (ts : List Turn)
    → length buffer ≤ status_places
    → let (read', buffer') = channel read buffer ts in
      (last (read' ++ buffer') ≡ newest (last (read ++ buffer)) ts)
      × (length buffer' ≤ status_places)
unfolding channel
channel-last read buffer [] h = (refl, h)
channel-last read buffer (emits s ∷ ts) h =
    let (same, room) = channel-last read (emit_status s buffer) ts (length-emit s buffer h) in
    (same ∙ ap (λ o. newest o ts) (last-emit s read buffer), room)
channel-last read [] (reads ∷ ts) h = channel-last read [] ts h
channel-last read (s ∷ buffer) (reads ∷ ts) h =
    let (same, room) = channel-last (read ++ (s ∷ [])) buffer ts (omega arith) in
    (same ∙ ap (λ xs. newest (last xs) ts) (append_assoc read (s ∷ []) buffer), room)

-- The status channel, however slow its reader is: the newest status that was emitted is the last
-- that was read or waits, whatever was dropped before it; and no more than sixteen wait.
pub channel-newest :
    (ts : List Turn)
    → let (read, buffer) = channel [] [] ts in
      (last (read ++ buffer) ≡ newest none ts) × (length buffer ≤ status_places)
channel-newest ts = channel-last [] [] ts (omega arith)
