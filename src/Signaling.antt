-- ===== src/Signaling.antt =====
-- host-agent/internal/signaling/rtdb_transport.go: what the stream of a session's node in the database comes
-- to. The JSON of a value is what it decodes to as each of the types that `route` reads; a map's
-- entries come in any order. The delays between attempts to open a stream are left out.
pub mod Stream
pub mod Calls
pub mod Keys
pub mod First
pub mod Told
pub mod Newest
pub mod Publish
mod Examples
use freedesk.Prelude.{
  ℕ, zero, suc, ◌==◌, Bool, true, false, not, ◌&&◌, ◌||◌, List, [], ◌∷◌, ◌++◌, Option, none, some,
  Text, text, eq_text, is_empty, any, length, drop, map, if◌then◌else◌, ltb, trim_left, trim_right,
  is_some,
}

pub data Role : Type 0 where
  host viewer : Role

pub record Description : Type 0 where
  pub t : Text
  pub sdp : Text

-- Only the test of `emitCandidate` looks into a candidate; the rest is `other`.
pub record IceCandidate : Type 0 where
  pub candidate : Text
  pub other : List ℕ

pub record Snapshot : Type 0 where
  pub viewer_uid : Text
  pub owner_uid : Text
  pub status : Text

abbrev pub Candidates : Type 0
Candidates = List (Text × IceCandidate)

pub record SessionNode : Type 0 where
  pub viewer_uid : Text
  pub owner_uid : Text
  pub status : Text
  pub offer : Option Description
  pub answer : Option Description
  pub host_candidates : Candidates
  pub viewer_candidates : Candidates

-- What a value decodes to, as each type.
pub record Value : Type 0 where
  pub as_node : Option SessionNode
  pub as_status : Option Text
  pub as_description : Option Description
  pub as_candidates : Option Candidates
  pub as_candidate : Option IceCandidate

-- A put or patch. `blank`: its data is empty or `null`.
pub record Event : Type 0 where
  pub patch : Bool
  pub path : Text
  pub blank : Bool
  pub value : Value
  pub children : Option (List (Text × Value))

abbrev pub local_desc_key : Role → Text
local_desc_key host = text "offer"
local_desc_key viewer = text "answer"

abbrev pub remote_desc_key : Role → Text
remote_desc_key host = text "answer"
remote_desc_key viewer = text "offer"

abbrev pub local_cand_key : Role → Text
local_cand_key host = text "hostCandidates"
local_cand_key viewer = text "viewerCandidates"

abbrev pub remote_cand_key : Role → Text
remote_cand_key host = text "viewerCandidates"
remote_cand_key viewer = text "hostCandidates"

abbrev pub pick_remote : Role → SessionNode → Option Description
pick_remote host node = node.answer
pick_remote viewer node = node.offer

abbrev pub pick_remote_candidates : Role → SessionNode → Candidates
pick_remote_candidates host node = node.viewer_candidates
pick_remote_candidates viewer node = node.host_candidates

-- The calls that `route` and `demux` make, in their order.
pub data Emission : Type 0 where
  snap : Snapshot → Emission
  stat : Text → Emission
  desc : Description → Emission
  cand : Text → IceCandidate → Emission
  gone : Emission

-- strings.HasPrefix with strings.TrimPrefix
unfoldable pub strip_prefix : Text → Text → Option Text
strip_prefix [] s = some s
strip_prefix (c ∷ p) [] = none
strip_prefix (c ∷ p) (d ∷ s) = let rest = strip_prefix p s in if c == d then rest else none

abbrev pub is_slash : ℕ → Bool
is_slash c = c == b'/'

abbrev pub cands : Candidates → List Emission
cands cs = map (λ p. cand p.0 p.1) cs

abbrev pub descs : Option Description → List Emission
descs none = []
descs (some d) = desc d ∷ []

abbrev pub stats : Text → List Emission
stats s = if is_empty s then [] else stat s ∷ []

abbrev pub is_complete : Description → Bool
is_complete d = not (is_empty d.t || is_empty d.sdp)

abbrev pub route_node : Role → Option SessionNode → List Emission
route_node r none = []
route_node r (some n) =
    (if is_empty n.viewer_uid && is_empty n.owner_uid
      then []
      else snap (record { viewer_uid = n.viewer_uid; owner_uid = n.owner_uid; status = n.status })
        ∷ [])
    ++ (stats n.status ++ (descs (pick_remote r n) ++ cands (pick_remote_candidates r n)))

abbrev pub route_status : Option Text → List Emission
route_status none = []
route_status (some s) = stats s

abbrev pub route_description : Option Description → List Emission
route_description none = []
route_description (some d) = if is_complete d then desc d ∷ [] else []

abbrev pub route_candidates : Option Candidates → List Emission
route_candidates none = []
route_candidates (some cs) = cands cs

abbrev pub cand_at : Text → Option IceCandidate → List Emission
cand_at key none = []
cand_at key (some c) = cand key c ∷ []

-- `some key` where the path lies below the remote candidates.
abbrev pub route_candidate : Option Text → Option IceCandidate → List Emission
route_candidate none c = []
route_candidate (some key) c = if any is_slash key then [] else cand_at key c

unfoldable pub route : Role → Text → Value → List Emission
route r path v =
    let remote_cand = b'/' ∷ remote_cand_key r in
    if eq_text path (text "/")
    then route_node r v.as_node
    else if eq_text path (text "/status")
    then route_status v.as_status
    else if eq_text path (b'/' ∷ remote_desc_key r)
    then route_description v.as_description
    else if eq_text path remote_cand
    then route_candidates v.as_candidates
    else route_candidate (strip_prefix (remote_cand ++ text "/") path) v.as_candidate

-- `"/"+strings.Trim(key, "/")`
abbrev pub child_path : Text → Text
child_path key = b'/' ∷ trim_right is_slash (trim_left is_slash key)

unfoldable pub route_all : Role → List (Text × Value) → List Emission
route_all r [] = []
route_all r ((key, v) ∷ vs) = route r (child_path key) v ++ route_all r vs

abbrev pub route_children : Role → Option (List (Text × Value)) → List Emission
route_children r none = []
route_children r (some vs) = route_all r vs

unfoldable pub demux : Role → Event → List Emission
demux r ev =
    if ev.blank
    then if eq_text ev.path (text "/") then gone ∷ [] else []
    else if ev.patch && eq_text ev.path (text "/")
    then route_children r ev.children
    else route r ev.path ev.value
