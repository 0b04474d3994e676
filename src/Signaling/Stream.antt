-- ===== src/Signaling/Stream.antt =====
-- signaling/rtdb_transport.go: the channels that a session's stream fills, and `run`.
use freedesk.Prelude.{
  ℕ, Bool, true, false, List, [], ◌∷◌, ◌++◌, Option, none, some, Text, eq_text, is_empty, any,
  length, drop, if◌then◌else◌, ltb,
}
use freedesk.Signaling.{
  Role, Description, IceCandidate, Snapshot, Candidates, Event, Emission, snap, stat, desc, cand,
  gone, is_complete, demux,
}

-- What was put into the channels: the one snapshot, the one description and the candidates, with their
-- keys; and the sixteen places of the status channel, the oldest first.
pub record Transport : Type 0 where
  pub snapshot : Option Snapshot
  pub status : List Text
  pub remote_desc : Option Description
  pub remote_cand : Candidates
  pub is_gone : Bool
  pub seen_cand : List Text

unfoldable pub new_transport : Transport
new_transport = record {
  snapshot = none;
  status = [];
  remote_desc = none;
  remote_cand = [];
  is_gone = false;
  seen_cand = [];
}

abbrev pub status_places : ℕ
status_places = 16

unfoldable pub emit_status : Text → List Text → List Text
emit_status s buffer =
    if ltb (length buffer) status_places then buffer ++ (s ∷ []) else drop 1 buffer ++ (s ∷ [])

-- sync.Once
abbrev pub once {ℓ} : {A : Type ℓ} → Option A → A → Option A
once none a = some a
once (some a) b = some a

unfoldable pub emit_candidate : Transport → Text → IceCandidate → Transport
emit_candidate t key c =
    if is_empty c.candidate
    then t
    else if any (λ k. eq_text k key) t.seen_cand
    then t
    else record t { seen_cand = key ∷ t.seen_cand; remote_cand = t.remote_cand ++ ((key, c) ∷ []) }

unfoldable pub emit : Transport → Emission → Transport
emit t (snap s) = record t { snapshot = once t.snapshot s }
emit t (stat s) = record t { status = emit_status s t.status }
emit t (desc d) = record t {
  remote_desc = if is_complete d then once t.remote_desc d else t.remote_desc;
}
emit t (cand key c) = emit_candidate t key c
emit t gone = record t { is_gone = true }

unfoldable pub emit_all : Transport → List Emission → Transport
emit_all t [] = t
emit_all t (e ∷ es) = emit_all (emit t e) es

pub data StreamEvent : Type 0 where
  data_event : Event → StreamEvent
  auth_revoked : StreamEvent
  cancelled : StreamEvent

-- A stream's events, up to its end, and whether it was cancelled.
unfoldable pub consume : Role → Transport → List StreamEvent → Transport × Bool
consume r t [] = (t, false)
consume r t (data_event ev ∷ evs) = consume r (emit_all t (demux r ev)) evs
consume r t (auth_revoked ∷ evs) = (t, false)
consume r t (cancelled ∷ evs) = (t, true)

-- An attempt to open the stream again: the wait is cut off, the database refuses, or there are
-- events. `ended`: the context has ended by then.
pub data Attempt : Type 0 where
  cut_off : Attempt
  refused : (ended denied : Bool) → Attempt
  opened : List StreamEvent → (ended : Bool) → Attempt

unfoldable pub reopen : Role → Transport → List Attempt → Transport
reopen r t [] = t
reopen r t (cut_off ∷ tries) = t
reopen r t (refused ended denied ∷ tries) =
    let rest = reopen r t tries in if ended then t else if denied then emit t gone else rest
reopen r t (opened evs ended ∷ tries) =
    let (t', cancel) = consume r t evs in
    let rest = reopen r t' tries in if cancel then emit t' gone else if ended then t' else rest

-- Start, which makes one attempt, and `run` from there on.
unfoldable pub start : Role → Option (List StreamEvent × Bool) → List Attempt → Transport
start r none tries = emit new_transport gone
start r (some (evs, ended)) tries = reopen r new_transport (opened evs ended ∷ tries)
