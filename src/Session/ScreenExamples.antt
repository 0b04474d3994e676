-- ===== src/Session/ScreenExamples.antt =====
-- The theorem about the media clock, at concrete captures.
use freedesk.Prelude.{ℕ, ◌+◌, ◌≡◌, refl, true, false, List, [], ◌∷◌, none, arith}
use freedesk.Session.Screen.{
  advance, Arrival, Attempt, start_fails, captures, pump_frames, stream_screen, write_frame,
  picture,
}
use freedesk.Session.Screen.Clock.{OnTime, slack_of, stream_screen-OnTime}

abbrev latency : ℕ
latency = 30

-- A frame that is received ten after its capture, and written ten later.
abbrev arrives : (elapsed at : ℕ) → Arrival
arrives elapsed at = record {
  frame = record { bytes = 900; elapsed = elapsed; at = at };
  got = at + 10;
  advances = true;
  writes = true;
  written = at + 20;
}

-- Two captures with two frames each, and one between them that does not start.
abbrev attempts : List Attempt
attempts =
    captures (arrives 0 100 ∷ arrives 33 133 ∷ []) false true
    ∷ start_fails true
    ∷ captures (arrives 0 5000 ∷ arrives 50 5050 ∷ []) false true
    ∷ []

-- The clock has gone 4,940, of the 4,950 between the first capture and the last.
samples_lem :
    stream_screen false none attempts
    ≡ picture (record { bytes = 900; elapsed = 0; at = 100 })
      ∷ advance 33
      ∷ picture (record { bytes = 900; elapsed = 33; at = 133 })
      ∷ advance 4857
      ∷ picture (record { bytes = 900; elapsed = 0; at = 5000 })
      ∷ advance 50
      ∷ picture (record { bytes = 900; elapsed = 50; at = 5050 })
      ∷ []
unfolding stream_screen pump_frames write_frame
samples_lem = refl

stream_screen-OnTime_example :
    OnTime (slack_of latency attempts) (stream_screen false none attempts)
stream_screen-OnTime_example = stream_screen-OnTime latency attempts (omega arith)
