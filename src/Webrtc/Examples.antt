-- ===== src/Webrtc/Examples.antt =====
-- The theorem about the candidates, at concrete ones.
use freedesk.Prelude.{◌+◌, Bool, List, refl, ◌≡◌, true, [], ◌∷◌, ◌++◌, text, if◌then◌else◌, map}
use freedesk.Signaling.{IceCandidate}
use freedesk.Webrtc.{
  new_peer, description, own_candidate, run, negotiation, finds, loops, step, add_candidate,
  start_publishing,
}
use freedesk.Webrtc.Ordered.{count, found, run-negotiation}

abbrev lan : IceCandidate
lan = record { candidate = text "candidate:1 1 udp 1 10.0.0.2 5000 typ host"; other = [] }

abbrev stun : IceCandidate
stun = record { candidate = text "candidate:2 1 udp 1 203.0.113.9 5000 typ srflx"; other = [] }

-- The one that is gathered late overtakes the one that the loop has still to send.
overtaken :
    (run new_peer (negotiation (lan ∷ []) [] true (finds stun ∷ loops ∷ []))).1
    ≡ description ∷ own_candidate stun ∷ own_candidate lan ∷ []
unfolding run step new_peer negotiation add_candidate start_publishing
overtaken = refl

run-negotiation_example :
    let (p, sent) = run new_peer (negotiation (lan ∷ []) [] true (finds stun ∷ loops ∷ [])) in
    (cs : List IceCandidate) × (sent ≡ description ∷ map own_candidate cs)
    × ((P : IceCandidate → Bool)
        → count P cs + count P p.flushing
          ≡ (if true then count P ((lan ∷ []) ++ ([] ++ found (finds stun ∷ loops ∷ []))) else 0))
run-negotiation_example = run-negotiation (lan ∷ []) [] true (finds stun ∷ loops ∷ [])
