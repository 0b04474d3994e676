-- ===== src/Signaling/Examples.antt =====
-- The theorems about signaling, at concrete inputs, and tests of its definitions.
use freedesk.Prelude.{◌||◌, All, any, ◌≡◌, refl, false, List, [], ◌∷◌, none, some, Text, text}
use freedesk.Signaling.{
  host, viewer, Description, IceCandidate, SessionNode, Value, desc, cand, strip_prefix, route,
  demux,
}
use freedesk.Signaling.Stream.{
  start, new_transport, emit_status, emit_candidate, emit, emit_all, StreamEvent, data_event,
  auth_revoked, cancelled, consume, Attempt, refused, opened, reopen,
}
use freedesk.Signaling.Calls.{emissions}
use freedesk.Signaling.Keys.{find, Unique}
use freedesk.Signaling.First.{offered_cands, first_desc, first_snap, start_first}
use freedesk.Signaling.Told.{heard, Sourced, is_removal}
use freedesk.Signaling.Newest.{Turn, emits, reads}
use freedesk.Signaling.Publish.{put_at, description_path, candidate_path, publish-demux}

abbrev nothing : Value
nothing = record {
  as_node = none;
  as_status = none;
  as_description = none;
  as_candidates = none;
  as_candidate = none;
}

abbrev answer : Description
answer = record { t = text "answer"; sdp = text "y" }

abbrev candidate : Text → IceCandidate
candidate s = record { candidate = s; other = [] }

abbrev node : SessionNode
node = record {
  viewer_uid = text "v";
  owner_uid = text "o";
  status = text "connecting";
  offer = none;
  answer = some answer;
  host_candidates = [];
  viewer_candidates =
      (text "c1", candidate (text "one")) ∷ (text "c2", candidate (text "two")) ∷ [];
}

-- A candidate, then the whole node again on a second stream, which ends with the node.
abbrev first : List StreamEvent
first =
    data_event (
      put_at (text "/viewerCandidates/c1")
        (record nothing { as_candidate = some (candidate (text "one")) }))
    ∷ auth_revoked
    ∷ []

abbrev tries : List Attempt
tries =
    refused false false
    ∷ opened
        (data_event (put_at (text "/") (record nothing { as_node = some node })) ∷ cancelled ∷ [])
        false
    ∷ []

replayed :
    (start host (some (first, false)) tries).remote_cand
    ≡ (text "c1", candidate (text "one")) ∷ (text "c2", candidate (text "two")) ∷ []
unfolding start reopen consume demux route strip_prefix emit_all emit emit_candidate new_transport
    emit_status
replayed = refl

start_first_example :
    let t = start host (some (first, false)) tries in
    let es = emissions host (some (first, false)) tries in
    let (evs, lost) = heard (some (first, false)) tries in
    All (Sourced host evs) es
    × ((k : Text) → find k t.remote_cand ≡ find k (offered_cands es))
    × Unique t.remote_cand
    × (t.remote_desc ≡ first_desc es)
    × (t.snapshot ≡ first_snap es)
    × (t.is_gone ≡ (any is_removal evs || lost))
start_first_example = start_first host (some (first, false)) tries

abbrev busy : List Turn
busy = emits (text "waiting") ∷ reads ∷ emits (text "connecting") ∷ emits (text "ended") ∷ []

publish-demux_example :
    let dv = record nothing { as_description = some answer } in
    let cv = record nothing { as_candidate = some (candidate (text "one")) } in
    (demux host (put_at (description_path viewer) dv) ≡ desc answer ∷ [])
    × (demux viewer (put_at (description_path viewer) dv) ≡ [])
    × (demux host (put_at (candidate_path viewer (text "c1")) cv)
        ≡ cand (text "c1") (candidate (text "one")) ∷ [])
    × (demux viewer (put_at (candidate_path viewer (text "c1")) cv) ≡ [])
publish-demux_example =
    publish-demux viewer answer (candidate (text "one")) (text "c1")
      (record nothing { as_description = some answer })
      (record nothing { as_candidate = some (candidate (text "one")) }) refl refl refl refl
