-- ===== src/Signaling/Publish.antt =====
-- signaling/rtdb_transport.go: the paths that one side writes, against those that the other reads.
use freedesk.Prelude.{◌≡◌, refl, true, false, [], ◌∷◌, ◌++◌, none, some, Text, any}
use freedesk.Signaling.{
  Role, host, viewer, Description, IceCandidate, Value, Event, desc, cand, is_slash, is_complete,
  local_desc_key, local_cand_key, strip_prefix, route, demux,
}

abbrev pub other_side : Role → Role
other_side host = viewer
other_side viewer = host

-- What a stream sends for a value that was put below the session's node.
abbrev pub put_at : Text → Value → Event
put_at path v = record { patch = false; path = path; blank = false; value = v; children = none }

-- PublishLocalDescription, and PublishLocalCandidate with the key that the database gives.
abbrev pub description_path : Role → Text
description_path r = b'/' ∷ local_desc_key r

abbrev pub candidate_path : Role → Text → Text
candidate_path r key = (b'/' ∷ local_cand_key r) ++ (b'/' ∷ key)

-- What one side publishes, where a value decodes to what was encoded and a key has no slash: the
-- other side reads a complete description, and each candidate under its key; the side itself
-- reads neither.
pub publish-demux :
    (r : Role) (d : Description) (c : IceCandidate) (key : Text) (dv cv : Value)
    → dv.as_description ≡ some d
    → is_complete d ≡ true
    → cv.as_candidate ≡ some c
    → any is_slash key ≡ false
    → (demux (other_side r) (put_at (description_path r) dv) ≡ desc d ∷ [])
      × (demux r (put_at (description_path r) dv) ≡ [])
      × (demux (other_side r) (put_at (candidate_path r key) cv) ≡ cand key c ∷ [])
      × (demux r (put_at (candidate_path r key) cv) ≡ [])
unfolding demux route strip_prefix
publish-demux host d c key dv cv a b e h = (rw (a, b) refl, refl, rw (h, e) refl, refl)
publish-demux viewer d c key dv cv a b e h = (rw (a, b) refl, refl, rw (h, e) refl, refl)
