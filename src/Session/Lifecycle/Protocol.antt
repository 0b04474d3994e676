-- ===== src/Session/Lifecycle/Protocol.antt =====
-- session/coordinator.go: the protocol that sessions follow, as an automaton over what they do.
use freedesk.Prelude.{
  ◌≡◌, Bool, true, false, not, ◌||◌, List, [], ◌∷◌, ◌++◌, Option, none, some, Text, eq_text,
  if◌then◌else◌,
}
use freedesk.Session.Approver.{is_ok}
use freedesk.Session.Lifecycle.{
  connecting, connected, ended, Effect, slot_taken, slot_freed, sets, gathers, asks, reports,
  clip_started, clip_stopped, negotiated, streams, input_released, transfers_closed, peer_closed,
  node_deleted, entry_deleted, Held, asked, negotiating, streaming,
}

-- How far an approved connection is.
pub data Link : Type 0 where
  begins failed up : Link

-- How far the one session with the slot is. `transfers` and `clip`: they are open.
pub data Phase : Type 0 where
  taken : Phase
  live : Phase
  declined : Phase
  linked : Link → (transfers clip : Bool) → Phase
  dead : Phase

pub data Stage : Type 0 where
  free : Stage
  owned : Text → Phase → Stage

-- What the session with the slot may do next; `none` where it may not.
unfoldable pub follow_phase : Phase → Effect → Option Phase
follow_phase taken (sets connecting) = some taken
follow_phase taken gathers = some live
follow_phase taken transfers_closed = some dead
follow_phase live (asks answer withdrawn) =
    if withdrawn || not (is_ok answer) then some declined else some (linked begins true false)
follow_phase declined reports = some declined
follow_phase declined transfers_closed = some (linked failed false false)
follow_phase (linked begins true false) clip_started = some (linked begins true true)
follow_phase (linked begins t c) (negotiated came_up) =
    if came_up then some (linked up t c) else some (linked failed t c)
follow_phase (linked up t c) (sets connected) = some (linked up t c)
follow_phase (linked up t c) streams = some (linked up t c)
follow_phase (linked up t c) input_released = some (linked up t c)
follow_phase (linked l true c) transfers_closed = some (linked l false c)
follow_phase (linked l t true) clip_stopped = some (linked l t false)
follow_phase (linked failed false false) peer_closed = some dead
follow_phase (linked up false false) peer_closed = some dead
follow_phase _ _ = none

-- Whatever is done to a request's node at its end, any session may do at any time.
unfoldable pub is_finish : Effect → Bool
is_finish (sets ended) = true
is_finish node_deleted = true
is_finish entry_deleted = true
is_finish _ = false

abbrev pub own : Text → Option Phase → Option Stage
own id none = none
own id (some p) = some (owned id p)

-- The slot is taken only while it is free, and freed only by its owner, once that is dead.
unfoldable pub follow : Stage → Text → Effect → Option Stage
follow free id slot_taken = some (owned id taken)
follow free id e = if is_finish e then some free else none
follow (owned x dead) id slot_freed = if eq_text x id then some free else none
follow (owned x p) id e =
    if is_finish e
    then some (owned x p)
    else if eq_text x id
    then own x (follow_phase p e)
    else none

unfoldable pub follow_all : Stage → List (Text × Effect) → Option Stage
follow_all s [] = some s
follow_all s ((id, e) ∷ log) = elim (follow s id e) [ none ↦ none | some s' ↦ follow_all s' log ]

abbrev pub stage_of : Option Held → Stage
stage_of none = free
stage_of (some (asked v)) = owned v.request.id live
stage_of (some (negotiating l)) = owned l.visit.request.id (linked begins l.transfers l.clip)
stage_of (some (streaming l)) = owned l.visit.request.id (linked up l.transfers l.clip)

pub follow_all-append :
    (s t : Stage) (xs ys : List (Text × Effect))
    → follow_all s xs ≡ some t
    → follow_all s (xs ++ ys) ≡ follow_all t ys
unfolding follow_all
follow_all-append s t [] ys h = cc
follow_all-append s t ((id, e) ∷ xs) ys h =
    onward (follow s id e) h (λ s' k. follow_all-append s' t xs ys k)
  where
    onward :
        (o : Option Stage)
        → elim o as (λ x. Option Stage) [ none ↦ none | some s' ↦ follow_all s' xs ] ≡ some t
        → ((s' : Stage) → follow_all s' xs ≡ some t → follow_all s' (xs ++ ys) ≡ follow_all t ys)
        → elim o as (λ x. Option Stage) [ none ↦ none | some s' ↦ follow_all s' (xs ++ ys) ]
          ≡ follow_all t ys
    onward none h k = cc
    onward (some s') h k = k s' h
