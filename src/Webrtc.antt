-- ===== src/Webrtc.antt =====
-- host-agent/internal/webrtc/connect.go: the peer's own candidates, and when they are published. A sending
-- is noted where its goroutine is started.
pub mod Ordered
mod Examples
use freedesk.Prelude.{Bool, true, false, List, [], ◌∷◌, ◌++◌, if◌then◌else◌, map}
use freedesk.Signaling.{IceCandidate}

-- `publishing`: there is a transport to publish to. `flushing`: what the loop of startPublishing, which
-- holds no lock, has still to start a goroutine for.
pub record Peer : Type 0 where
  pub publishing : Bool
  pub pending : List IceCandidate
  pub flushing : List IceCandidate

unfoldable pub new_peer : Peer
new_peer = record { publishing = false; pending = []; flushing = [] }

-- What the transport is asked to publish.
pub data Sent : Type 0 where
  description : Sent
  own_candidate : IceCandidate → Sent

-- A candidate is gathered; negotiate asks for the local description to be published; startPublishing
-- takes the lock; a round of its loop.
pub data Event : Type 0 where
  gathers : IceCandidate → Event
  describes : Event
  starts : Event
  flushes : Event

unfoldable pub add_candidate : Peer → IceCandidate → Peer × List Sent
add_candidate p c =
    if p.publishing
    then (p, own_candidate c ∷ [])
    else (record p { pending = p.pending ++ (c ∷ []) }, [])

unfoldable pub start_publishing : Peer → Peer
start_publishing p = record { publishing = true; pending = []; flushing = p.pending }

abbrev pub flush : Peer → List IceCandidate → Peer × List Sent
flush p [] = (p, [])
flush p (c ∷ cs) = (record p { flushing = cs }, own_candidate c ∷ [])

unfoldable pub step : Peer → Event → Peer × List Sent
unfolding add_candidate start_publishing
step p (gathers c) = add_candidate p c
step p describes = (p, description ∷ [])
step p starts = (start_publishing p, [])
step p flushes = flush p p.flushing

unfoldable pub run : Peer → List Event → Peer × List Sent
unfolding step
run p [] = (p, [])
run p (e ∷ es) = let (p', sent) = step p e in let (last, more) = run p' es in (last, sent ++ more)

-- What may happen, in any order, after startPublishing has let the lock go, or without it.
pub data Late : Type 0 where
  finds : IceCandidate → Late
  loops : Late

abbrev pub late_event : Late → Event
late_event (finds c) = gathers c
late_event loops = flushes

-- The events of one negotiation, with what is gathered before the description is published, while it
-- is, and what happens after that; `succeeds`: it is published without an error.
unfoldable pub negotiation :
    (before during : List IceCandidate) → (succeeds : Bool) → (after : List Late) → List Event
negotiation before during succeeds after =
    map gathers before
    ++ (describes
        ∷ (map gathers during ++ ((if succeeds then starts ∷ [] else []) ++ map late_event after)))
