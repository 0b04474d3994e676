-- ===== src/Capture/World/Budget.antt =====
-- capture/pipeline.go: the forced calls of the encoder, against the pictures that the loop has marked.
use freedesk.Prelude.{
  ℕ, ◌+◌, ◌≤◌, ◌≡◌, refl, Bool, true, false, List, [], ◌∷◌, ◌++◌, Option, none, some, arith,
  if◌then◌else◌, Bool-cases, inl, inr, ◌==◌, ap, subst, sym,
}
use freedesk.Vpx.{Size}
use freedesk.Capture.Loop.{Ticked, ended, idle, work, Draft, tick}
use freedesk.Capture.Mailbox.{Image, Job, send, merge, load_image}
use freedesk.Capture.Encode.{
  Encoder, Call, Encoded, gave_up, waits, fed, Answer, encode, call_encoder, with_picture,
  packet_frame, next_picture, serving,
}
use freedesk.Capture.World.{
  World, new_world, Event, request, ticks, takes, stop, ticked, encoded, taken, step, run,
}

abbrev pub bit : Bool → ℕ
bit b = if b then 1 else 0

unfoldable pub marks : List Draft → ℕ
marks [] = 0
marks (d ∷ ds) = bit d.keyframe + marks ds

unfoldable pub forces : List Call → ℕ
forces [] = 0
forces (c ∷ cs) = bit c.force + forces cs

abbrev waiting : Option Job → ℕ
waiting none = 0
waiting (some j) = bit j.keyframe

abbrev Within : World → Type 0
Within w = forces w.calls + waiting w.box ≤ marks w.drafts

waiting-send :
    (box : Option Job) (free : List Image) (j : Job)
    → bit (send box free j).0.keyframe ≤ bit j.keyframe + waiting box
unfolding send merge
waiting-send none free j = omega arith
waiting-send (some old) free j = ground arith

keyframe-load_image :
    (d : Draft) (size : Size) (free : List Image) (next : ℕ)
    → (load_image d size free next).0.keyframe ≡ d.keyframe
unfolding load_image
keyframe-load_image d size free next = elim (Bool-cases d.load) [
  | inl e ↦ simp e refl
  | inr e ↦ simp e refl
]

ticked-Within : (w : World) (t : Ticked) → Within w → Within (ticked w t)
unfolding marks
ticked-Within w ended h = h
ticked-Within w (idle l want) h = h
ticked-Within w (work l want c d) h =
    let (j, free, next) = load_image d c.out w.free w.next in
    let same : bit j.keyframe ≡ bit d.keyframe =
      ap bit (keyframe-load_image d c.out w.free w.next) in
    omega (arith, h, waiting-send w.box free j, same)

-- What the encoder is forced to, for a job.
abbrev Costs : Encoded → ℕ → Type 0
Costs (gave_up e cs) k = forces cs ≤ k
Costs (waits e) k = Unit
Costs (fed e c f) k = bit c.force ≤ k

packet_frame-Costs :
    (e : Encoder) (c : Call) (delivered : Bool) (o : Option ℕ)
    → Costs (packet_frame e c delivered o) (bit c.force)
unfolding forces
packet_frame-Costs e c delivered none = omega arith
packet_frame-Costs e c delivered (some n) = elim (Bool-cases (n == 0)) [
  | inl y ↦ rw y (omega arith)
  | inr y ↦ elim (Bool-cases delivered) [
    | inl d ↦ rw (y, d) (omega arith)
    | inr d ↦ rw (y, d) (omega arith)
  ]
]

call_encoder-Costs :
    (e : Encoder) (img : Image) (j : Job) (fresh : Bool) (a : Answer)
    → Costs (call_encoder e img j fresh a) (bit j.keyframe)
unfolding call_encoder
call_encoder-Costs e img j fresh a = packet_frame-Costs _ _ a.delivered a.packet

if-Costs : (b : Bool) (x y : Encoded) (k : ℕ) → Costs x k → Costs y k → Costs (if b then x else y) k
if-Costs true x y k h g = h
if-Costs false x y k h g = g

with_picture-Costs :
    (e : Encoder) (cur : Option Image) (j : Job) (a : Answer)
    → Costs (with_picture e cur j a) (bit j.keyframe)
unfolding forces
with_picture-Costs e none j a = tt
with_picture-Costs e (some img) j a =
    let opened = record e { size = some img.size; pts = 0; last_enc = none } in
    if-Costs (serving j.restart img.size e.size) _ _ (bit j.keyframe)
      (call_encoder-Costs e img j false a)
      (if-Costs a.opens _ (gave_up (record e { size = none }) []) (bit j.keyframe)
        (call_encoder-Costs opened img j true a) (omega arith))

forces-append : (cs ds : List Call) → forces (cs ++ ds) ≡ forces cs + forces ds
unfolding forces
forces-append [] ds = omega arith
forces-append (c ∷ cs) ds = omega (arith, forces-append cs ds)

encoded-Within :
    (w : World) (x : Encoded) (free : List Image)
    → Costs x (waiting w.box)
    → Within w
    → Within (encoded w (x, free))
unfolding forces
encoded-Within w (gave_up e cs) free k h = omega (arith, k, h, forces-append cs w.calls)
encoded-Within w (waits e) free k h = omega (arith, h)
encoded-Within w (fed e c f) free k h = omega (arith, k, h)

taken-Within :
    (w : World) (box : Option Job) (a : Answer) → w.box ≡ box → Within w → Within (taken w box a)
unfolding encode
taken-Within w none a e h = h
taken-Within w (some j) a e h =
    let (cur, free) = next_picture w.enc.cur j.img w.free in
    encoded-Within w (with_picture (record w.enc { cur = cur }) cur j a) free
      (subst (λ b. Costs (with_picture (record w.enc { cur = cur }) cur j a) (waiting b)) (sym e)
        (with_picture-Costs (record w.enc { cur = cur }) cur j a))
      h

if-Within : (c : Bool) (x y : World) → Within x → Within y → Within (if c then x else y)
if-Within true x y h k = h
if-Within false x y h k = k

step-Within : (m : ℕ) (w : World) (e : Event) → Within w → Within (step m w e)
unfolding step
step-Within m w request h = h
step-Within m w stop h = h
step-Within m w (ticks now g) h =
    if-Within w.capturing _ _ (ticked-Within w (tick m w.loop w.want now g) h) h
step-Within m w (takes a) h = if-Within w.encoding _ _ (taken-Within w w.box a refl h) h

pub run-Within : (m : ℕ) (w : World) (es : List Event) → Within w → Within (run m w es)
unfolding run
run-Within m w [] h = h
run-Within m w (e ∷ es) h = run-Within m (step m w e) es (step-Within m w e h)

pub forces-marks :
    (m : ℕ) (es : List Event) → let w = run m new_world es in forces w.calls ≤ marks w.drafts
forces-marks m es =
    let h = run-Within m new_world es (unfold forces marks in omega arith) in omega (arith, h)
