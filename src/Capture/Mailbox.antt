-- ===== src/Capture/Mailbox.antt =====
-- capture/pipeline.go, `send`, takeImage and recycle: the mailbox that holds one job, and the
-- images that go round. An image is its size and the number of its memory.
use freedesk.Prelude.{
  ℕ, ◌+◌, Bool, ◌||◌, List, [], ◌∷◌, ◌++◌, Option, none, some, if◌then◌else◌, ltb, length,
}
use freedesk.Vpx.{Size}
use freedesk.Capture.Loop.{same_size, Draft}

pub record Image : Type 0 where
  pub size : Size
  pub buffer : ℕ

pub record Job : Type 0 where
  pub at : ℕ
  pub img : Option Image
  pub restart : Bool
  pub keyframe : Bool

-- `free` is a channel of four.
unfoldable pub recycle : List Image → Image → List Image
recycle free img = if ltb (length free) 4 then free ++ (img ∷ []) else free

-- The image, what is left of the free ones, and the number of the next new one.
unfoldable pub take_image : List Image → ℕ → Size → Image × List Image × ℕ
take_image [] next size = (record { size = size; buffer = next }, [], next + 1)
take_image (img ∷ free) next size =
    let rest = take_image free next size in
    if same_size img.size size then (img, free, next) else rest

-- `j.img` and the free images, where the old job is replaced.
abbrev pub keep_image : Option Image → Option Image → List Image → Option Image × List Image
keep_image none old free = (old, free)
keep_image (some img) none free = (some img, free)
keep_image (some img) (some old) free = (some img, recycle free old)

unfoldable pub merge : Job → Job → List Image → Job × List Image
merge old j free =
    let (img, free') = keep_image j.img old.img free in
    (
      record {
        at = j.at;
        img = img;
        restart = j.restart || old.restart;
        keyframe = j.keyframe || old.keyframe;
      },
      free',
    )

-- The mailbox and the free images after `send`. Should the encoder take the old job in the midst
-- of it, that is a take before it.
unfoldable pub send : Option Job → List Image → Job → Job × List Image
send none free j = (j, free)
send (some old) free j = merge old j free

-- A draft, with its picture.
unfoldable pub load_image : Draft → Size → List Image → ℕ → Job × List Image × ℕ
load_image d size free next =
    if d.load
    then (let (img, rest, next') = take_image free next size in
        (
          record { at = d.at; img = some img; restart = d.restart; keyframe = d.keyframe },
          rest,
          next',
        ))
    else (record { at = d.at; img = none; restart = d.restart; keyframe = d.keyframe }, free, next)
