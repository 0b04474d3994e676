-- ===== src/Capture/World/Buffers.antt =====
-- capture/pipeline.go: no image's memory is in two places.
use freedesk.Prelude.{
  ℕ, ◌+◌, ◌≤◌, ◌≡◌, refl, ◌⊎◌, inl, inr, Bool, true, false, List, [], ◌∷◌, ◌++◌, Option, none, some,
  if◌then◌else◌, ltb, ◌==◌, length, ap, ◌∙◌, arith, Bool-cases,
}
use freedesk.Vpx.{Size}
use freedesk.Capture.Loop.{Ticked, ended, idle, work, tick, Draft, same_size}
use freedesk.Capture.Mailbox.{Image, Job, load_image, send, recycle, take_image, merge, keep_image}
use freedesk.Capture.Encode.{
  Encoder, Answer, Encoded, gave_up, waits, fed, encode, call_encoder, with_picture, next_picture,
  serving,
}
use freedesk.Capture.World.{
  World, new_world, Event, request, ticks, takes, stop, ticked, encoded, taken, step, run,
}

-- How often a buffer occurs.
abbrev pub occurs : ℕ → Option Image → ℕ
occurs b none = 0
occurs b (some img) = if img.buffer == b then 1 else 0

-- 1 at the number itself.
abbrev one_at : ℕ → ℕ → ℕ
one_at next b = if next == b then 1 else 0

occurs_self : (img : Image) → occurs img.buffer (some img) ≡ 1
occurs_self img = ground arith

one_at_eq : (a b : ℕ) → 1 ≤ one_at a b → a ≡ b
one_at_eq a b h = ground arith

abbrev pub count : ℕ → List Image → ℕ
count b [] = 0
count b (img ∷ free) = occurs b (some img) + count b free

abbrev pub box_image : Option Job → Option Image
box_image none = none
box_image (some j) = j.img

-- The places of a buffer: the free images, the job that waits, and the encoder's picture.
abbrev pub copies : ℕ → World → ℕ
copies b w = count b w.free + occurs b (box_image w.box) + occurs b w.enc.cur

record Apart (w : World) : Type 0 where
  once : (b : ℕ) → copies b w ≤ 1
  unused : (b : ℕ) → w.next ≤ b → copies b w ≡ 0

count-append : (b : ℕ) (xs ys : List Image) → count b (xs ++ ys) ≡ count b xs + count b ys
count-append b [] ys = omega arith
count-append b (x ∷ xs) ys = omega (arith, count-append b xs ys)

count-recycle :
    (b : ℕ) (free : List Image) (img : Image)
    → count b (recycle free img) ≤ count b free + occurs b (some img)
unfolding recycle
count-recycle b free img = elim (Bool-cases (ltb (length free) 4)) [
  | inl room ↦ rw room (omega (arith, count-append b free (img ∷ [])))
  | inr full ↦ rw full (omega arith)
]

-- A taken image was a free one, or is new.
count-take_image :
    (b : ℕ) (free : List Image) (next : ℕ) (size : Size)
    → let (img, rest, next') = take_image free next size in
      ((next' ≡ next) × (count b rest + occurs b (some img) ≤ count b free))
      ⊎ ((next' ≡ next + 1) × (count b rest + occurs b (some img) ≤ one_at next b))
unfolding take_image
count-take_image b [] next size = inr (refl, omega arith)
count-take_image b (x ∷ free) next size = elim (Bool-cases (same_size x.size size)) [
  | inl same ↦ rw same (inl (refl, omega arith))
  | inr other ↦ rw other (elim (count-take_image b free next size) [
    | inl old ↦ inl (old.0, omega (arith, old.1))
    | inr new ↦ inr new
  ])
]

count-load_image :
    (b : ℕ) (d : Draft) (size : Size) (free : List Image) (next : ℕ)
    → let (j, rest, next') = load_image d size free next in
      ((next' ≡ next) × (count b rest + occurs b j.img ≤ count b free))
      ⊎ ((next' ≡ next + 1) × (count b rest + occurs b j.img ≤ one_at next b))
unfolding load_image
count-load_image b d size free next = elim (Bool-cases d.load) [
  | inl load ↦ rw load (count-take_image b free next size)
  | inr repeat ↦ rw repeat (inl (refl, omega arith))
]

count-keep_image :
    (b : ℕ) (img old : Option Image) (free : List Image)
    → let (img', free') = keep_image img old free in
      count b free' + occurs b img' ≤ count b free + occurs b old + occurs b img
count-keep_image b none old free = omega arith
count-keep_image b (some img) none free = omega arith
count-keep_image b (some img) (some old) free = omega (arith, count-recycle b free old)

count-send :
    (b : ℕ) (box : Option Job) (free : List Image) (j : Job)
    → let (j', free') = send box free j in
      count b free' + occurs b j'.img ≤ count b free + occurs b (box_image box) + occurs b j.img
unfolding send merge
count-send b none free j = omega arith
count-send b (some old) free j = count-keep_image b j.img old.img free

count-next_picture :
    (b : ℕ) (cur img : Option Image) (free : List Image)
    → let (cur', free') = next_picture cur img free in
      count b free' + occurs b cur' ≤ count b free + occurs b cur + occurs b img
count-next_picture b cur none free = omega arith
count-next_picture b none (some img) free = omega arith
count-next_picture b (some old) (some img) free = omega (arith, count-recycle b free old)

abbrev pub encoder_of : Encoded → Encoder
encoder_of (gave_up e' cs) = e'
encoder_of (waits e') = e'
encoder_of (fed e' c f) = e'

-- The encoder's calls leave its picture alone.
pub cur-with_picture :
    (e : Encoder) (cur : Option Image) (j : Job) (a : Answer)
    → e.cur ≡ cur
    → (encoder_of (with_picture e cur j a)).cur ≡ cur
unfolding call_encoder
cur-with_picture e none j a h = h
cur-with_picture e (some img) j a h = elim (Bool-cases (serving j.restart img.size e.size)) [
  | inl serves ↦ rw serves (ground arith)
  | inr not_it ↦ rw not_it (ground arith)
]

copies-encoded :
    (w : World) (x : Encoded) (free : List Image) (b : ℕ)
    → copies b (encoded w (x, free)) ≡ count b free + occurs b (encoder_of x).cur
copies-encoded w (gave_up e cs) free b = omega arith
copies-encoded w (waits e) free b = omega arith
copies-encoded w (fed e c f) free b = omega arith

next-encoded : (w : World) (x : Encoded) (free : List Image) → (encoded w (x, free)).next ≡ w.next
next-encoded w (gave_up e cs) free = refl
next-encoded w (waits e) free = refl
next-encoded w (fed e c f) free = refl

ticked-Apart : (w : World) (t : Ticked) → Apart w → Apart (ticked w t)
ticked-Apart w ended h = record { once = h.once; unused = h.unused }
ticked-Apart w (idle l want) h = record { once = h.once; unused = h.unused }
ticked-Apart w (work l want c d) h = record {
  once = λ b. elim (count-load_image b d c.out w.free w.next) [
    | inl old ↦ omega (arith, h.once b, old.1, count-send b w.box rest j)
    | inr new ↦ omega (arith, limit b, new.1, count-send b w.box rest j)
  ];
  unused = λ b l. elim (count-load_image b d c.out w.free w.next) [
    | inl old ↦ omega (arith, h.unused b (omega (arith, old.0)), old.1, count-send b w.box rest j)
    | inr new ↦ omega (
      arith,
      h.unused b (omega (arith, new.0)),
      new.1,
      apart_next b (omega (arith, new.0)),
      count-send b w.box rest j,
    )
  ];
}
  where
    j : Job
    j = (load_image d c.out w.free w.next).0

    rest : List Image
    rest = (load_image d c.out w.free w.next).1

    limit : (b : ℕ) → one_at w.next b + occurs b (box_image w.box) + occurs b w.enc.cur ≤ 1
    limit b = elim (Bool-cases (w.next == b)) [
      | inl same ↦ rw same (omega (arith, h.unused b (ground arith)))
      | inr other ↦ rw other (omega (arith, h.once b))
    ]

    apart_next : (b : ℕ) → w.next + 1 ≤ b → one_at w.next b ≡ 0
    apart_next b l = ground arith

taken-Apart :
    (w : World) (box : Option Job) (a : Answer) → w.box ≡ box → Apart w → Apart (taken w box a)
unfolding encode
taken-Apart w none a e h = h
taken-Apart w (some j) a e h =
    let (cur, free) = next_picture w.enc.cur j.img w.free in
    let x = with_picture (record w.enc { cur = cur }) cur j a in
    let same = cur-with_picture (record w.enc { cur = cur }) cur j a refl in
    let places : (b : ℕ) → copies b (encoded w (x, free)) ≡ count b free + occurs b cur =
      λ b. copies-encoded w x free b ∙ ap (λ o. count b free + occurs b o) same in
    let less : (b : ℕ) → copies b (encoded w (x, free)) ≤ copies b w = λ b. omega (
      arith,
      places b,
      count-next_picture b w.enc.cur j.img w.free,
      ap (λ o. occurs b (box_image o)) e,
    ) in
    record {
      once = λ b. omega (arith, less b, h.once b);
      unused = λ b l. omega (arith, less b, h.unused b (omega (arith, next-encoded w x free)));
    }

if-Apart : (c : Bool) (x y : World) → Apart x → Apart y → Apart (if c then x else y)
if-Apart true x y h k = h
if-Apart false x y h k = k

step-Apart : (m : ℕ) (w : World) (e : Event) → Apart w → Apart (step m w e)
unfolding step
step-Apart m w request h = record { once = h.once; unused = h.unused }
step-Apart m w stop h = record { once = h.once; unused = h.unused }
step-Apart m w (ticks now g) h =
    if-Apart w.capturing _ _ (ticked-Apart w (tick m w.loop w.want now g) h) h
step-Apart m w (takes a) h = if-Apart w.encoding _ _ (taken-Apart w w.box a refl h) h

run-Apart : (m : ℕ) (w : World) (es : List Event) → Apart w → Apart (run m w es)
unfolding run
run-Apart m w [] h = h
run-Apart m w (e ∷ es) h = run-Apart m (step m w e) es (step-Apart m w e h)

new_world-Apart : Apart new_world
new_world-Apart = record { once = λ b. omega arith; unused = λ b l. refl }

-- After any events, in any order: an image's memory is in one place at most, of the free ones, the job
-- that waits and the picture that the encoder holds; and the image that the next tick takes to
-- write into is neither of the latter two.
pub run_apart :
    (m : ℕ) (es : List Event) (size : Size)
    → let w = run m new_world es in
      let img = (take_image w.free w.next size).0 in
      ((b : ℕ) → copies b w ≤ 1)
      × (occurs img.buffer (box_image w.box) ≡ 0)
      × (occurs img.buffer w.enc.cur ≡ 0)
run_apart m es size =
    let w = run m new_world es in
    let h = run-Apart m new_world es new_world-Apart in
    let img = (take_image w.free w.next size).0 in
    let apart : occurs img.buffer (box_image w.box) + occurs img.buffer w.enc.cur ≡ 0 =
      elim (count-take_image img.buffer w.free w.next size) [
        | inl old ↦ omega (arith, h.once img.buffer, old.1, occurs_self img)
        | inr new ↦
            let is_next : w.next ≡ img.buffer =
              one_at_eq w.next img.buffer (omega (arith, new.1, occurs_self img)) in
            omega (arith, h.unused img.buffer (omega (arith, is_next)))
      ] in
    (h.once, omega arith, omega arith)
