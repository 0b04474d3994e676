-- ===== src/Session/Inbox/Listen.antt =====
-- session/inbox.go, Listen: the streams that are opened one after the other, and the waits between them.
use mathlib.Core.List.{append_assoc}
use freedesk.Prelude.{
  ℕ, ◌*◌, ◌≤◌, ◌≡◌, refl, sym, ap, subst, ◌∙◌, min, Bool, true, false, List, [], ◌∷◌, ◌++◌,
  if◌then◌else◌, arith, All,
}
use freedesk.Session.Inbox.{Seen, Effect, Event, handle_data, handle_events}
use freedesk.Session.Inbox.Once.{
  requests, first_only, all_turns_of, NoRepeats, handle_events-first_only, IsReplay,
}

abbrev pub reconnect_min_delay : ℕ
reconnect_min_delay = 1000000000

abbrev pub reconnect_max_delay : ℕ
reconnect_max_delay = 30000000000

-- What a stream gives: put and patch events, the end of its token or of its permission, and others.
pub data StreamEvent : Type 0 where
  changed : Event → StreamEvent
  auth_revoked : StreamEvent
  cancelled : StreamEvent
  other : StreamEvent

-- An attempt to open a stream: it fails, or its events come. `ends` is whether the context has
-- ended by then, and `sleeps` whether the wait that follows completes.
pub data Attempt : Type 0 where
  failed : (ends sleeps : Bool) → Attempt
  opened : List StreamEvent → (ends sleeps : Bool) → Attempt

-- The events that are handled: up to the first that ends the loop.
unfoldable pub consumed : List StreamEvent → List Event
consumed [] = []
consumed (changed ev ∷ evs) = ev ∷ consumed evs
consumed (auth_revoked ∷ evs) = []
consumed (cancelled ∷ evs) = []
consumed (other ∷ evs) = consumed evs

-- What Listen did: its effects, and how long it waited each time.
pub record Log : Type 0 where
  pub effects : List Effect
  pub waits : List ℕ

abbrev pub no_log : Log
no_log = record { effects = []; waits = [] }

abbrev pub after_wait : ℕ → Bool → Log → Log
after_wait d sleeps rest =
    if sleeps
    then record { effects = rest.effects; waits = d ∷ rest.waits }
    else record { effects = []; waits = d ∷ [] }

abbrev pub with_effects : List Effect → Log → Log
with_effects es l = record { effects = es ++ l.effects; waits = l.waits }

-- The loop, from a delay and what was seen, over the attempts that the network makes of it.
unfoldable pub listen : ℕ → Seen → List Attempt → Log
listen delay seen [] = no_log
listen delay seen (failed ends sleeps ∷ tries) =
    let rest = listen (min (delay * 2) reconnect_max_delay) seen tries in
    if ends then no_log else after_wait delay sleeps rest
listen delay seen (opened evs ends sleeps ∷ tries) =
    let (kept, done) = handle_events seen (consumed evs) in
    let rest = listen reconnect_min_delay kept tries in
    with_effects done (if ends then no_log else after_wait reconnect_min_delay sleeps rest)

-- The events of all streams that are read before Listen returns.
unfoldable pub read_events : List Attempt → List Event
read_events [] = []
read_events (failed ends sleeps ∷ tries) =
    let rest = read_events tries in if ends then [] else if sleeps then rest else []
read_events (opened evs ends sleeps ∷ tries) =
    let rest = read_events tries in
    consumed evs ++ (if ends then [] else if sleeps then rest else [])

handle_events-append :
    (seen : Seen) (evs fvs : List Event)
    → (handle_events seen (evs ++ fvs)).1
      ≡ (handle_events seen evs).1 ++ (handle_events (handle_events seen evs).0 fvs).1
unfolding handle_events
handle_events-append seen [] fvs = refl
handle_events-append seen (ev ∷ evs) fvs =
    let (kept, done) = handle_data seen ev in
    ap (λ es. done ++ es) (handle_events-append kept evs fvs) ∙ sym (append_assoc done _ _)

-- Listen does to each event what handleData does, one stream after the other.
listen-events :
    (delay : ℕ) (seen : Seen) (tries : List Attempt)
    → (listen delay seen tries).effects ≡ (handle_events seen (read_events tries)).1
unfolding listen read_events
listen-events delay seen [] = unfold handle_events in refl
listen-events delay seen (failed true sleeps ∷ tries) = unfold handle_events in refl
listen-events delay seen (failed false false ∷ tries) = unfold handle_events in refl
listen-events delay seen (failed false true ∷ tries) =
    listen-events (min (delay * 2) reconnect_max_delay) seen tries
listen-events delay seen (opened evs ends sleeps ∷ tries) =
    let kept = (handle_events seen (consumed evs)).0 in
    ap (λ es. (handle_events seen (consumed evs)).1 ++ es)
      (tail ends sleeps kept (listen-events reconnect_min_delay kept tries))
    ∙ sym (handle_events-append seen (consumed evs) _)
  where
    tail :
        (ends sleeps : Bool) (kept : Seen)
        → (listen reconnect_min_delay kept tries).effects
          ≡ (handle_events kept (read_events tries)).1
        → (if ends
            then no_log
            else after_wait reconnect_min_delay sleeps
                (listen reconnect_min_delay kept tries)).effects
          ≡ (handle_events kept (if ends then [] else if sleeps then read_events tries else [])).1
    tail true sleeps kept h = unfold handle_events in refl
    tail false true kept h = h
    tail false false kept h = unfold handle_events in refl

abbrev pub IsDelay : ℕ → Type 0
IsDelay d = (reconnect_min_delay ≤ d) × (d ≤ reconnect_max_delay)

listen_waits :
    (delay : ℕ) (seen : Seen) (tries : List Attempt)
    → IsDelay delay
    → All IsDelay (listen delay seen tries).waits
unfolding listen
listen_waits delay seen [] h = tt
listen_waits delay seen (failed true sleeps ∷ tries) h = tt
listen_waits delay seen (failed false false ∷ tries) h = (h, tt)
listen_waits delay seen (failed false true ∷ tries) h = (
  h,
  listen_waits (min (delay * 2) reconnect_max_delay) seen tries (omega (arith, h.0), omega arith),
)
listen_waits delay seen (opened evs true sleeps ∷ tries) h = tt
listen_waits delay seen (opened evs false false ∷ tries) h = ((omega arith, omega arith), tt)
listen_waits delay seen (opened evs false true ∷ tries) h = (
  (omega arith, omega arith),
  listen_waits reconnect_min_delay (handle_events seen (consumed evs)).0 tries
      (omega arith, omega arith),
)

-- Listen, over any streams, cut off and opened again in any way, where the clock does not run backwards
-- and an entry that is read again was created before it was first read: the requests that are
-- handled are those of an inbox that forgets no id, the first entry of each id unless it is stale
-- or names no viewer; so no request is handled twice. Every wait is of 1 to 30 seconds.
pub listen_once :
    (tries : List Attempt)
    → IsReplay 0 [] (all_turns_of (read_events tries))
    → let l = listen reconnect_min_delay [] tries in
      (requests l.effects ≡ first_only [] (all_turns_of (read_events tries)))
      × NoRepeats (requests l.effects)
      × All IsDelay l.waits
listen_once tries h =
    let e = listen-events reconnect_min_delay [] tries in
    let (same, once) = handle_events-first_only (read_events tries) h in
    (
      ap requests e ∙ same,
      subst (λ es. NoRepeats (requests es)) (sym e) once,
      listen_waits reconnect_min_delay [] tries (omega arith, omega arith),
    )
