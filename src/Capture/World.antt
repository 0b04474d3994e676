-- ===== src/Capture/World.antt =====
-- capture/pipeline.go: the two goroutines, in any interleaving. An event is what one of them does
-- between two waits: a keyframe request, a tick with its job sent, and a job that the encoder takes.
-- The end of the context is an event of its own: it does not cut a send short.
pub mod Buffers
pub mod Pending
pub mod Served
pub mod Requests
pub mod Budget
pub mod Spacing
pub mod Clock
mod Examples
use freedesk.Prelude.{
  ℕ, Bool, true, false, List, [], ◌∷◌, ◌++◌, Option, none, some, length, if◌then◌else◌,
}
use freedesk.Capture.Loop.{Loop, new_loop, Grab, Ticked, ended, idle, work, tick, Converter, Draft}
use freedesk.Capture.Mailbox.{Image, Job, load_image, send}
use freedesk.Capture.Encode.{
  Encoder, new_encoder, Answer, Call, Frame, Encoded, gave_up, waits, fed, encode,
}

-- `drafts` and `calls` are what happened, the last first: the jobs that were handed over, each with
-- whether it was forced, and the calls of the encoder.
pub record World : Type 0 where
  pub capturing : Bool
  pub encoding : Bool
  pub loop : Loop
  pub want : Bool
  pub box : Option Job
  pub free : List Image
  pub next : ℕ
  pub enc : Encoder
  pub drafts : List Draft
  pub calls : List Call
  pub frames : List Frame

abbrev pub new_world : World
new_world = record {
  capturing = true;
  encoding = true;
  loop = new_loop;
  want = false;
  box = none;
  free = [];
  next = 0;
  enc = new_encoder;
  drafts = [];
  calls = [];
  frames = [];
}

pub data Event : Type 0 where
  request : Event
  ticks : (now : ℕ) → Grab → Event
  takes : Answer → Event
  stop : Event

abbrev pub put_job : World → Job × List Image × ℕ → World
put_job w (j, free, next) =
    let (box, free') = send w.box free j in record w { box = some box; free = free'; next = next }

abbrev pub ticked : World → Ticked → World
ticked w ended = record w { capturing = false }
ticked w (idle l want) = record w { loop = l; want = want }
ticked w (work l want c d) =
    put_job (record w { loop = l; want = want; drafts = d ∷ w.drafts })
      (load_image d c.out w.free w.next)

abbrev pub add_frame : Option Frame → List Frame → List Frame
add_frame none fs = fs
add_frame (some f) fs = f ∷ fs

abbrev pub encoded : World → Encoded × List Image → World
encoded w (gave_up e cs, free) = record w {
  enc = e;
  encoding = false;
  box = none;
  free = free;
  calls = cs ++ w.calls;
}
encoded w (waits e, free) = record w { enc = e; box = none; free = free }
encoded w (fed e c f, free) = record w {
  enc = e;
  box = none;
  free = free;
  calls = c ∷ w.calls;
  frames = add_frame f w.frames;
}

abbrev pub taken : World → Option Job → Answer → World
taken w none a = w
taken w (some j) a = encoded w (encode w.enc w.free j a)

unfoldable pub step : ℕ → World → Event → World
step max_width w request = record w { want = true }
step max_width w (ticks now g) =
    if w.capturing then ticked w (tick max_width w.loop w.want now g) else w
step max_width w (takes a) = if w.encoding then taken w w.box a else w
step max_width w stop = record w { capturing = false }

unfoldable pub run : ℕ → World → List Event → World
run max_width w [] = w
run max_width w (e ∷ es) = run max_width (step max_width w e) es
