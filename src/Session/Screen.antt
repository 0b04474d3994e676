-- ===== src/Session/Screen.antt =====
-- session/coordinator.go: streamScreen and pumpFrames, which write the frames of one capture after the
-- other to the video track. Times are nanoseconds of a clock that does not run backwards. The list
-- of attempts ends where the context has ended at the head of the loop.
pub mod Clock
use freedesk.Prelude.{
  ℕ, ◌-◌, min, Bool, true, false, not, ◌&&◌, ◌||◌, List, [], ◌∷◌, ◌++◌, Option, none, some, ltb,
  if◌then◌else◌,
}
use freedesk.Capture.Encode.{Frame}

abbrev pub capture_gap_cap : ℕ
capture_gap_cap = 5000000000

-- What is written to the track: an empty sample with a duration, or a frame.
pub data Sample : Type 0 where
  advance : ℕ → Sample
  picture : Frame → Sample

-- A frame as it is received: when, whether the two writes succeed, and when the second has.
pub record Arrival : Type 0 where
  pub frame : Frame
  pub got : ℕ
  pub advances : Bool
  pub writes : Bool
  pub written : ℕ

pub record Pumped : Type 0 where
  pub samples : List Sample
  pub last_frame_at : Option ℕ
  pub write_failed : Bool

abbrev pub elapsed_of : Bool → Option ℕ → Arrival → ℕ
elapsed_of true (some t) a = min (a.got - t) capture_gap_cap
elapsed_of _ _ a = a.frame.elapsed

abbrev pub advances_by : ℕ → List Sample
advances_by d = if ltb 0 d then advance d ∷ [] else []

-- The two writes of a frame, and what comes after it.
unfoldable pub write_frame : ℕ → Frame → Option ℕ → (advances writes : Bool) → Pumped → Pumped
write_frame elapsed f last advances writes rest =
    if ltb 0 elapsed && not advances
    then record { samples = []; last_frame_at = last; write_failed = true }
    else if not writes
    then record { samples = advances_by elapsed; last_frame_at = last; write_failed = true }
    else record rest { samples = advances_by elapsed ++ (picture f ∷ rest.samples) }

unfoldable pub pump_frames : Bool → Option ℕ → List Arrival → Pumped
unfolding write_frame
pump_frames first last [] = record { samples = []; last_frame_at = last; write_failed = false }
pump_frames first last (a ∷ later) =
    write_frame (elapsed_of first last a) a.frame last a.advances a.writes
      (pump_frames false (some a.written) later)

-- A turn of the loop: the capture does not start, or runs and gives frames. `ended`: the context has
-- ended by then; `sleeps`: the pause is not cut off.
pub data Attempt : Type 0 where
  start_fails : (sleeps : Bool) → Attempt
  captures : List Arrival → (ended sleeps : Bool) → Attempt

unfoldable pub stream_screen : Bool → Option ℕ → List Attempt → List Sample
stream_screen started last [] = []
stream_screen started last (start_fails sleeps ∷ more) =
    let rest = stream_screen started last more in if started && sleeps then rest else []
stream_screen started last (captures frames ended sleeps ∷ more) =
    let p = pump_frames true last frames in
    let rest = stream_screen true p.last_frame_at more in
    p.samples ++ (if ended || p.write_failed then [] else if sleeps then rest else [])
