-- ===== src/Capture/World/Requests.antt =====
-- capture/pipeline.go: a viewer's request for a keyframe is not lost.
use freedesk.Prelude.{
  ℕ, ◌+◌, ◌≤◌, ◌<◌, ◌≡◌, refl, Bool, true, false, not, ◌||◌, List, [], ◌∷◌, Option, none, some,
  arith, if◌then◌else◌, ap, subst, ◌⊎◌, ltb,
}
use freedesk.Capture.Loop.{Ticked, ended, idle, work, tick}
use freedesk.Capture.Mailbox.{Image, Job, load_image, send, merge}
use freedesk.Capture.Encode.{
  Encoded, gave_up, waits, fed, Answer, Call, encode, with_picture, next_picture,
}
use freedesk.Capture.World.Served.{
  asks, Served, load_image_flags, Serves, with_picture-Serves, taken_some, step-Served, run-Served,
}
use freedesk.Capture.World.Pending.{Keeps, tick-Keeps}
use freedesk.Capture.World.{
  World, new_world, Event, request, ticks, takes, stop, ticked, encoded, taken, step, run,
}

abbrev pub is_pending : World → Bool
is_pending w = w.want || asks w.box

abbrev pub answers : List Call → ℕ
answers [] = 0
answers (c ∷ cs) = (if c.force || c.fresh then 1 else 0) + answers cs

asks-send :
    (box : Option Job) (free : List Image) (j : Job)
    → asks (some (send box free j).0) ≡ (asks (some j) || asks box)
unfolding send merge
asks-send none free j = ground arith
asks-send (some old) free j = ground arith

abbrev kept : ℕ → World → Bool
kept n w = is_pending w || ltb n (answers w.calls) || not w.encoding

ticked_kept :
    (n : ℕ) (w : World) (t : Ticked)
    → Keeps w.want w.loop.restart t
    → kept n w ≡ true
    → kept n (ticked w t) ≡ true
ticked_kept n w ended k h = h
ticked_kept n w (idle l want) k h = ground arith
ticked_kept n w (work l want c d) k h =
    let (j, free, next) = load_image d c.out w.free w.next in
    ground (arith, asks-send w.box free j, (load_image_flags d c.out w.free w.next).0)

encoded_kept :
    (n : ℕ) (w : World) (j : Job) (x : Encoded) (free : List Image)
    → w.box ≡ some j
    → Serves j x
    → n ≤ answers w.calls
    → kept n w ≡ true
    → kept n (encoded w (x, free)) ≡ true
encoded_kept n w j (gave_up e cs) free b s l k = ground arith
encoded_kept n w j (waits e) free b s l k = absurd s
encoded_kept n w j (fed e c f) free b s l k = ground (arith, ap asks b)

answers-encoded :
    (w : World) (x : Encoded) (free : List Image)
    → answers w.calls ≤ answers (encoded w (x, free)).calls
answers-encoded w (gave_up e []) free = omega arith
answers-encoded w (gave_up e (c ∷ cs)) free = omega (arith, answers-encoded w (gave_up e cs) free)
answers-encoded w (waits e) free = omega arith
answers-encoded w (fed e c f) free = omega arith

-- `n` is how many calls had made a keyframe when the request was there.
record Kept (n : ℕ) (w : World) : Type 0 where
  before : n ≤ answers w.calls
  still : kept n w ≡ true

ticked-Kept :
    (n : ℕ) (w : World) (t : Ticked)
    → Keeps w.want w.loop.restart t
    → Kept n w
    → Kept n (ticked w t)
ticked-Kept n w t k h = record {
  before = subst (λ cs. n ≤ answers cs) (same_calls t) h.before;
  still = ticked_kept n w t k h.still;
}
  where
    same_calls : (t : Ticked) → w.calls ≡ (ticked w t).calls
    same_calls ended = refl
    same_calls (idle l want) = refl
    same_calls (work l want c d) = refl

taken-Kept :
    (n : ℕ) (w : World) (box : Option Job) (a : Answer)
    → w.box ≡ box
    → Served w
    → Kept n w
    → Kept n (taken w box a)
unfolding encode
taken-Kept n w none a e s h = h
taken-Kept n w (some j) a e s h =
    let (cur, free) = next_picture w.enc.cur j.img w.free in
    let x = with_picture (record w.enc { cur = cur }) cur j a in
    let serves = with_picture-Serves (record w.enc { cur = cur }) cur j a (taken_some w j e s) in
    record {
      before = omega (arith, h.before, answers-encoded w x free);
      still = encoded_kept n w j x free e serves h.before h.still;
    }

if-Kept : (n : ℕ) (c : Bool) (x y : World) → Kept n x → Kept n y → Kept n (if c then x else y)
if-Kept n true x y h k = h
if-Kept n false x y h k = k

step-Kept : (n m : ℕ) (w : World) (e : Event) → Served w → Kept n w → Kept n (step m w e)
unfolding step
step-Kept n m w request s h = record { before = h.before; still = refl }
step-Kept n m w stop s h = record { before = h.before; still = h.still }
step-Kept n m w (ticks now g) s h =
    if-Kept n w.capturing _ _
      (ticked-Kept n w (tick m w.loop w.want now g) (tick-Keeps m w.loop w.want now g) h) h
step-Kept n m w (takes a) s h = if-Kept n w.encoding _ _ (taken-Kept n w w.box a refl s h) h

run-Kept : (n m : ℕ) (w : World) (es : List Event) → Served w → Kept n w → Kept n (run m w es)
unfolding run
run-Kept n m w [] s h = h
run-Kept n m w (e ∷ es) s h =
    run-Kept n m (step m w e) es (step-Served m w e s) (step-Kept n m w e s h)

-- From any point that the two goroutines can reach, whatever follows a request: it is still pending,
-- with the request or in the job that waits, or the encoder was called for a keyframe or was new at a
-- call since, or it has given up.
pub run_kept :
    (m : ℕ) (es es' : List Event)
    → let w = run m new_world es in
      let w' = run m (step m w request) es' in
      (is_pending w' ≡ true) ⊎ (answers w.calls < answers w'.calls) ⊎ (w'.encoding ≡ false)
run_kept m es es' =
    let w = run m new_world es in
    let served = run-Served m new_world es (record { first = refl }) in
    outcome (run m (step m w request) es') (
      run-Kept (answers w.calls) m (step m w request) es' (step-Served m w request served)
        (asked w))
  where
    asked : (w : World) → Kept (answers w.calls) (step m w request)
    asked w = unfold step in record { before = omega arith; still = refl }

    outcome :
        {n : ℕ} (w : World)
        → Kept n w
        → (is_pending w ≡ true) ⊎ (n < answers w.calls) ⊎ (w.encoding ≡ false)
    outcome w h = ground (arith, h.still)
