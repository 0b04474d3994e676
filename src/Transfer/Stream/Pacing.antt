-- ===== src/Transfer/Stream/Pacing.antt =====
-- send.go: what a stream sends, and when it succeeds.
use native.Mathlib.Decide.{dec_lt}
use native.Mathlib.Nat.{add-zero}
use freedesk.Prelude.{
  ℕ, ◌+◌, ◌≤◌, ◌<◌, ◌≡◌, refl, true, List, [], ◌∷◌, Option, none, some, arith, ltb, length, All,
  ◌⊎◌, inl, inr, Bool-cases, subst, ◌≢◌,
}
use freedesk.Transfer.Message.{chunk_bytes}
use freedesk.Transfer.Stream.{
  high_water, StreamError, gone, send_failed, Wake, low, Pass, after_pass, wait_for_drain, ReadEnd,
  more, eof, broken, Round, Sent, check_size, after_read, add_frame?, hand_over, drained,
  stream_from, stream_file,
}

abbrev pub total : List (List ℕ) → ℕ
total [] = 0
total (f ∷ fs) = length f + total fs

-- Of a stream from `sent` bytes on.
abbrev Ends : ℕ → ℕ → Option Sent → Type 0
Ends size sent none = Unit
Ends size sent (some (frames, e)) =
    (e ≡ none → sent + total frames ≡ size)
    × (sent < size → sent + total frames < size + chunk_bytes)
    × (size ≤ sent → frames ≡ [])
    × All (λ f. (0 < length f) × (length f ≤ chunk_bytes)) frames

abbrev pub ReadsFit : List Round → Type 0
ReadsFit rs = All (λ r. length r.read ≤ chunk_bytes) rs

check_size-Ends : (size sent : ℕ) → Ends size sent (some (check_size sent size))
check_size-Ends size sent = ground arith

failed-Ends : (size sent : ℕ) (x : StreamError) → Ends size sent (some ([], some x))
failed-Ends size sent x = ground arith

after_read-Ends :
    (end : ReadEnd) (size sent : ℕ) (rest : Option Sent)
    → Ends size sent rest
    → Ends size sent (after_read end sent size rest)
after_read-Ends more size sent rest h = h
after_read-Ends eof size sent rest h = check_size-Ends size sent
after_read-Ends broken size sent rest h = failed-Ends size sent _

add_frame?-Ends :
    (size sent : ℕ) (f : List ℕ) (o : Option Sent)
    → sent < size
    → 0 < length f
    → length f ≤ chunk_bytes
    → Ends size (sent + length f) o
    → Ends size sent (add_frame? f o)
add_frame?-Ends size sent f none l p q h = tt
add_frame?-Ends size sent f (some ([], e)) l p q h = ground arith
add_frame?-Ends size sent f (some (g ∷ gs, e)) l p q (done, bound, none_left, each) = (
  (λ x. omega (arith, done x)),
  (λ _. elim (dec_lt (sent + length f) size) [
    | yes m ↦ omega (arith, bound m)
    | no m ↦ cc (none_left (omega arith))
  ]),
  (λ m. absurd (omega arith)),
  ((p, q), each),
)

hand_over-Ends :
    (r : Round) (bytes : List ℕ) (size sent : ℕ) (rest : Option Sent)
    → sent < size
    → length bytes ≤ chunk_bytes
    → Ends size (sent + length bytes) rest
    → Ends size sent (hand_over r bytes sent size rest)
hand_over-Ends r [] size sent rest l q h =
    after_read-Ends r.end size sent rest (rw (← add-zero sent) h)
hand_over-Ends r (b ∷ bs) size sent rest l q h =
    let told =
      add_frame?-Ends size sent (b ∷ bs) _ l (omega arith) q
        (after_read-Ends r.end size (sent + length (b ∷ bs)) rest h) in
    elim (Bool-cases r.has_channel) [
      | inr n ↦ rw n (failed-Ends size sent gone)
      | inl c ↦ elim (Bool-cases r.accepted) [
        | inr n ↦ rw (c, n) (failed-Ends size sent send_failed)
        | inl a ↦ simp (c, a) told
      ]
    ]

drained-Ends :
    (o : Option (Option StreamError)) (r : Round) (size sent : ℕ) (rest : Option Sent)
    → sent < size
    → length r.read ≤ chunk_bytes
    → Ends size (sent + length r.read) rest
    → Ends size sent (drained o r sent size rest)
drained-Ends none r size sent rest l q h = tt
drained-Ends (some (some x)) r size sent rest l q h = failed-Ends size sent x
drained-Ends (some none) r size sent rest l q h = hand_over-Ends r r.read size sent rest l q h

stream_from-Ends :
    (size sent : ℕ) (rs : List Round) → ReadsFit rs → Ends size sent (stream_from size sent rs)
unfolding stream_from
stream_from-Ends size sent [] h = ground arith
stream_from-Ends size sent (r ∷ rs) h = elim (Bool-cases (ltb sent size)) [
  | inr n ↦ rw n (check_size-Ends size sent)
  | inl y ↦ rw y (
      drained-Ends (wait_for_drain r.passes) r size sent _ (ground arith) h.0
        (stream_from-Ends size (sent + length r.read) rs h.1))
]

-- A stream that ends, over reads of at most 32 KiB: every frame holds 1 byte to 32 KiB; in all less
-- than one frame more than the size that was offered is sent; and where it succeeds, exactly that size.
pub stream_file-sends :
    (size : ℕ) (rs : List Round) (frames : List (List ℕ)) (e : Option StreamError)
    → 0 < size
    → ReadsFit rs
    → stream_file true size rs ≡ some (frames, e)
    → (e ≡ none → total frames ≡ size)
      × (total frames < size + chunk_bytes)
      × All (λ f. (0 < length f) × (length f ≤ chunk_bytes)) frames
unfolding stream_file
stream_file-sends size rs frames e p fit h =
    let (done, bound, _, each) = subst (Ends size 0) h (stream_from-Ends size 0 rs fit) in
    ((λ x. omega (arith, done x)), omega (arith, bound p), each)

-- Enough rounds for the loop: where each reads at least one byte and no wait is cut off, `size` of
-- them end it.
abbrev Productive : List Round → Type 0
Productive rs = All (λ r. (0 < length r.read) × (wait_for_drain r.passes ≢ none)) rs

drained_ends :
    (o : Option (Option StreamError)) (r : Round) (size sent : ℕ) (rest : Option Sent)
    → o ≢ none
    → rest ≢ none
    → drained o r sent size rest ≢ none
drained_ends none r size sent rest n k = absurd (n refl)
drained_ends (some (some x)) r size sent rest n k = ground arith
drained_ends (some none) r size sent rest n k = ground arith

stream_from_ends :
    (size sent : ℕ) (rs : List Round)
    → Productive rs
    → size ≤ sent + length rs
    → stream_from size sent rs ≢ none
unfolding stream_from
stream_from_ends size sent [] h l = ground arith
stream_from_ends size sent (r ∷ rs) h l = elim (Bool-cases (ltb sent size)) [
  | inr n ↦ rw n (λ x. cc)
  | inl y ↦ rw y (
      drained_ends (wait_for_drain r.passes) r size sent _ h.0.1
        (stream_from_ends size (sent + length r.read) rs h.1 (omega arith)))
]

-- The loop ends: with reads that make progress and waits that end, as many rounds as there are
-- bytes are enough for a result.
pub stream_file_ends :
    (size : ℕ) (rs : List Round)
    → Productive rs
    → size ≤ length rs
    → stream_file true size rs ≢ none
unfolding stream_file
stream_file_ends size rs h l = stream_from_ends size 0 rs h (omega arith)

abbrev pub WokenUntilRoom : List Pass → Type 0
WokenUntilRoom [] = ⊥
WokenUntilRoom (p ∷ ps) =
    ((n : ℕ) × (p.buffered ≡ some n) × (n < high_water)) ⊎ ((p.wake ≡ low) × WokenUntilRoom ps)

after_pass_room :
    (b : Option ℕ) (w : Wake) (rest : Option (Option StreamError))
    → after_pass b w rest ≡ some none
    → ((n : ℕ) × (b ≡ some n) × (n < high_water)) ⊎ ((w ≡ low) × (rest ≡ some none))
after_pass_room none w rest h = absurd (ground arith)
after_pass_room (some n) w rest h = elim (dec_lt n high_water) [
  | yes l ↦ inl (n, refl, l)
  | no g ↦ inr (ground arith)
]

-- waitForDrain says that there is room only after a pass that saw less than 1 MiB in the queue, and
-- every pass before it was woken by the queue running low.
pub wait_for_drain_room : (ps : List Pass) → wait_for_drain ps ≡ some none → WokenUntilRoom ps
unfolding wait_for_drain
wait_for_drain_room [] h = absurd (ground arith)
wait_for_drain_room (p ∷ ps) h = elim (after_pass_room p.buffered p.wake (wait_for_drain ps) h) [
  | inl r ↦ inl r
  | inr (w, r) ↦ inr (w, wait_for_drain_room ps r)
]
