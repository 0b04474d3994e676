-- ===== src/Session/Screen/Clock.antt =====
-- session/coordinator.go: the media clock of the video track, across the captures of a session.
use mathlib.Core.List.{append_assoc}
use freedesk.Prelude.{
  ℕ, zero, suc, ◌+◌, ◌-◌, ◌≤◌, ◌≡◌, refl, ap, sym, subst, Bool, true, false, not, ◌&&◌, ◌||◌, List,
  [], ◌∷◌, ◌++◌, Option, none, some, ltb, if◌then◌else◌, arith, Bool-cases, inl, inr, min,
}
use freedesk.Capture.Encode.{Frame}
use freedesk.Session.Screen.{
  capture_gap_cap, Sample, advance, picture, Arrival, Pumped, advances_by, write_frame, pump_frames,
  Attempt, start_fails, captures, stream_screen,
}

-- At each picture, the media clock shows the time since `origin` to within `slack`.
abbrev pub InTime : ℕ → ℕ → ℕ → List Sample → Type 0
InTime slack origin clock [] = Unit
InTime slack origin clock (advance d ∷ ss) = InTime slack origin (clock + d) ss
InTime slack origin clock (picture f ∷ ss) =
    (origin + clock ≤ f.at + slack) × (f.at ≤ origin + clock + slack) × InTime slack origin clock ss

-- The clock starts with the first picture.
abbrev pub OnTime : ℕ → List Sample → Type 0
OnTime slack [] = Unit
OnTime slack (advance d ∷ ss) = ⊥
OnTime slack (picture f ∷ ss) = InTime slack f.at 0 ss

module _ (latency : ℕ) where
  -- A frame is received and written within the latency of its capture.
  abbrev pub Prompt : Arrival → Type 0
  Prompt a = (a.frame.at ≤ a.got) × (a.got ≤ a.written) × (a.written ≤ a.frame.at + latency)

  -- Within a capture, a frame carries the time since the one before it.
  abbrev pub Steady : ℕ → List Arrival → Type 0
  Steady at [] = Unit
  Steady at (a ∷ later) = (at + a.frame.elapsed ≡ a.frame.at) × Prompt a × Steady a.frame.at later

  -- The first frame of all carries no time; one that opens a later capture comes within the cap.
  abbrev pub Opens : Option ℕ → Arrival → Type 0
  Opens none a = a.frame.elapsed ≡ 0
  Opens (some t) a = (t ≤ a.got) × (a.got ≤ t + capture_gap_cap)

  abbrev pub last_written : ℕ → List Arrival → ℕ
  last_written t [] = t
  last_written t (a ∷ later) = last_written a.written later

  abbrev pub Regular : Option ℕ → List Attempt → Type 0
  Regular last [] = Unit
  Regular last (start_fails sleeps ∷ more) = Regular last more
  Regular last (captures [] ended sleeps ∷ more) = Regular last more
  Regular last (captures (a ∷ later) ended sleeps ∷ more) =
      (Opens last a × Prompt a × Steady a.frame.at later)
      × Regular (some (last_written a.written later)) more

  -- The latency, for each attempt.
  abbrev pub slack_of : List Attempt → ℕ
  slack_of [] = 0
  slack_of (t ∷ more) = latency + slack_of more

  advances-InTime :
      (slack origin clock d : ℕ) (ss : List Sample)
      → InTime slack origin (clock + d) ss
      → InTime slack origin clock (advances_by d ++ ss)
  advances-InTime slack origin clock d ss h = elim (Bool-cases (ltb 0 d)) [
    | inl e ↦ rw e h
    | inr e ↦
        let none_left : clock + d ≡ clock = ground arith in
        rw e (subst (λ c. InTime slack origin c ss) none_left h)
  ]

  -- How a list goes on after the frames of a capture.
  abbrev goes_on : Pumped → (Option ℕ → List Sample) → List Sample
  goes_on p after = p.samples ++ (if p.write_failed then [] else after p.last_frame_at)

  write_frame-InTime :
      (slack origin clock d : ℕ) (f : Frame) (last : Option ℕ) (advances writes : Bool)
      (rest : Pumped) (after : Option ℕ → List Sample)
      → origin + (clock + d) ≤ f.at + slack
      → f.at ≤ origin + (clock + d) + slack
      → InTime slack origin (clock + d) (goes_on rest after)
      → InTime slack origin clock (goes_on (write_frame d f last advances writes rest) after)
  unfolding write_frame
  write_frame-InTime slack origin clock d f last advances writes rest after lo hi h =
      elim (Bool-cases (ltb 0 d && not advances)) [
        | inl e ↦ rw e tt
        | inr e ↦ rw e (written writes)
      ]
    where
      written :
          (writes : Bool)
          → InTime slack origin clock (
              goes_on
                (if not writes
                  then record { samples = advances_by d; last_frame_at = last; write_failed = true }
                  else record rest { samples = advances_by d ++ (picture f ∷ rest.samples) })
                after)
      written true =
          subst (InTime slack origin clock)
            (sym (append_assoc (advances_by d) (picture f ∷ rest.samples) _))
            (advances-InTime slack origin clock d _ (lo, hi, h))
      written false = advances-InTime slack origin clock d [] tt

  -- The frames of a capture after its first.
  pump-InTime :
      (top slack origin clock at t : ℕ) (later : List Arrival) (after : Option ℕ → List Sample)
      → slack ≤ top
      → origin + clock ≤ at + slack
      → at ≤ origin + clock + slack
      → (at ≤ t) × (t ≤ at + latency)
      → Steady at later
      → ((clock' at' : ℕ)
          → origin + clock' ≤ at' + slack
          → at' ≤ origin + clock' + slack
          → (at' ≤ last_written t later) × (last_written t later ≤ at' + latency)
          → InTime top origin clock' (after (some (last_written t later))))
      → InTime top origin clock (goes_on (pump_frames false (some t) later) after)
  unfolding pump_frames
  pump-InTime top slack origin clock at t [] after m lo hi w s k = k clock at lo hi w
  pump-InTime top slack origin clock at t (a ∷ later) after m lo hi w s k =
      let (e, prompt, steady) = s in
      let now = clock + a.frame.elapsed in
      let lo' : origin + now ≤ a.frame.at + slack = omega (arith, e, lo) in
      let hi' : a.frame.at ≤ origin + now + slack = omega (arith, e, hi) in
      write_frame-InTime top origin clock a.frame.elapsed a.frame (some t) a.advances a.writes
        (pump_frames false (some a.written) later) after (omega (arith, lo', m))
        (omega (arith, hi', m))
        (pump-InTime top slack origin now a.frame.at a.written later after m lo' hi'
          (omega (arith, prompt), prompt.2) steady k)

  -- What follows a capture, with the test of the context inside.
  goes_on_same :
      (p : Pumped) (ended : Bool) (after : Option ℕ → List Sample)
      → p.samples ++ (if ended || p.write_failed then [] else after p.last_frame_at)
        ≡ goes_on p (λ last. if ended then [] else after last)
  goes_on_same p true after = ap (λ ss. p.samples ++ ss) (either p.write_failed)
    where
      either : (b : Bool) → ◌≡◌ {A = List Sample} [] (if b then [] else [])
      either true = refl
      either false = refl
  goes_on_same p false after = refl

  after_sleep :
      (slack origin clock : ℕ) (ended sleeps : Bool) (ss : List Sample)
      → InTime slack origin clock ss
      → InTime slack origin clock (if ended then [] else if sleeps then ss else [])
  after_sleep slack origin clock true sleeps ss h = tt
  after_sleep slack origin clock false true ss h = h
  after_sleep slack origin clock false false ss h = tt

  abbrev resumed : List Attempt → Bool → Option ℕ → List Sample
  resumed more sleeps last = if sleeps then stream_screen true last more else []

  abbrev follows : List Attempt → (ended sleeps : Bool) → Option ℕ → List Sample
  follows more ended sleeps last = if ended then [] else resumed more sleeps last

  -- The captures after the first that gave a picture, of which the last was written at `t`.
  stream-InTime :
      (top slack origin clock at t : ℕ) (attempts : List Attempt)
      → slack + slack_of attempts ≤ top
      → origin + clock ≤ at + slack
      → at ≤ origin + clock + slack
      → (at ≤ t) × (t ≤ at + latency)
      → Regular (some t) attempts
      → InTime top origin clock (stream_screen true (some t) attempts)
  unfolding stream_screen pump_frames
  stream-InTime top slack origin clock at t [] m lo hi w r = tt
  stream-InTime top slack origin clock at t (start_fails true ∷ more) m lo hi w r =
      stream-InTime top slack origin clock at t more (omega arith) lo hi w r
  stream-InTime top slack origin clock at t (start_fails false ∷ more) m lo hi w r = tt
  stream-InTime top slack origin clock at t (captures [] ended sleeps ∷ more) m lo hi w r =
      subst (InTime top origin clock)
        (sym (goes_on_same (pump_frames true (some t) []) ended (resumed more sleeps)))
        (after_sleep top origin clock ended sleeps _
          (stream-InTime top slack origin clock at t more (omega (arith, m)) lo hi w r))
  stream-InTime top slack origin clock at t (captures (a ∷ later) ended sleeps ∷ more) m lo hi w r =
      let (opens, prompt, steady) = r.0 in
      let d = min (a.got - t) capture_gap_cap in
      let more_slack = slack + latency in
      let lo' : origin + (clock + d) ≤ a.frame.at + more_slack = omega arith in
      let hi' : a.frame.at ≤ origin + (clock + d) + more_slack = omega arith in
      let rest = pump_frames false (some a.written) later in
      subst (InTime top origin clock)
        (sym (goes_on_same (pump_frames true (some t) (a ∷ later)) ended (resumed more sleeps)))
        (write_frame-InTime top origin clock d a.frame (some t) a.advances a.writes rest
          (follows more ended sleeps) (omega (arith, lo', m)) (omega (arith, hi', m))
          (pump-InTime top more_slack origin (clock + d) a.frame.at a.written later
            (follows more ended sleeps) (omega (arith, m)) lo' hi' (omega (arith, prompt), prompt.2)
            steady
            (λ c at' l h w'.
              after_sleep top origin c ended sleeps
                (stream_screen true (some (last_written a.written later)) more)
                (stream-InTime top more_slack origin c at' (last_written a.written later) more
                  (omega (arith, m)) l h w' r.1))))

  write_frame-OnTime :
      (slack d : ℕ) (f : Frame) (last : Option ℕ) (advances writes : Bool) (rest : Pumped)
      (after : Option ℕ → List Sample)
      → d ≡ 0
      → InTime slack f.at 0 (goes_on rest after)
      → OnTime slack (goes_on (write_frame d f last advances writes rest) after)
  unfolding write_frame
  write_frame-OnTime slack zero f last advances true rest after e h = h
  write_frame-OnTime slack zero f last advances false rest after e h = tt
  write_frame-OnTime slack (suc d) f last advances writes rest after e h = absurd (omega arith)

  after_sleep-OnTime :
      (slack : ℕ) (ended sleeps : Bool) (ss : List Sample)
      → OnTime slack ss
      → OnTime slack (if ended then [] else if sleeps then ss else [])
  after_sleep-OnTime slack true sleeps ss h = tt
  after_sleep-OnTime slack false true ss h = h
  after_sleep-OnTime slack false false ss h = tt

  -- The captures up to the first that gives a picture.
  stream-OnTime :
      (top : ℕ) (started : Bool) (attempts : List Attempt)
      → slack_of attempts ≤ top
      → Regular none attempts
      → OnTime top (stream_screen started none attempts)
  unfolding stream_screen pump_frames
  stream-OnTime top started [] m r = tt
  stream-OnTime top true (start_fails true ∷ more) m r = stream-OnTime top true more (omega arith) r
  stream-OnTime top true (start_fails false ∷ more) m r = tt
  stream-OnTime top false (start_fails sleeps ∷ more) m r = tt
  stream-OnTime top started (captures [] ended sleeps ∷ more) m r =
      subst (OnTime top) (sym (goes_on_same (pump_frames true none []) ended (resumed more sleeps)))
        (after_sleep-OnTime top ended sleeps _ (stream-OnTime top true more (omega (arith, m)) r))
  stream-OnTime top started (captures (a ∷ later) ended sleeps ∷ more) m r =
      let (opens, prompt, steady) = r.0 in
      let origin = a.frame.at in
      subst (OnTime top)
        (sym (goes_on_same (pump_frames true none (a ∷ later)) ended (resumed more sleeps)))
        (write_frame-OnTime top a.frame.elapsed a.frame none a.advances a.writes
          (pump_frames false (some a.written) later) (follows more ended sleeps) opens
          (pump-InTime top latency origin 0 origin a.written later (follows more ended sleeps)
            (omega (arith, m)) (omega arith) (omega arith) (omega (arith, prompt), prompt.2) steady
            (λ c at' l h w.
              after_sleep top origin c ended sleeps
                (stream_screen true (some (last_written a.written later)) more)
                (stream-InTime top latency origin c at' (last_written a.written later) more m l h w
                  r.1))))

  -- The media clock of a session's video, where every frame is received and written within the
  -- latency of its capture, a capture's frames carry the times between them, and no capture is down
  -- for more than five seconds: at each picture, the clock shows the time since the first picture was
  -- captured, to within one latency for each attempt to capture.
  pub stream_screen-OnTime :
      (attempts : List Attempt)
      → Regular none attempts
      → OnTime (slack_of attempts) (stream_screen false none attempts)
  stream_screen-OnTime attempts r = stream-OnTime (slack_of attempts) false attempts (omega arith) r
