-- ===== src/Session/Lifecycle.antt =====
-- host-agent/internal/session/coordinator.go: Run, prepare, run, release, finish, and the single slot. What
-- a request meets (the database, the operator, the network) is its environment. A request that has the
-- slot waits for the operator; others may arrive meanwhile, each in a goroutine of its own.
pub mod Protocol
pub mod Phases
pub mod Follows
use freedesk.Prelude.{
  ℕ, Bool, true, false, not, ◌&&◌, ◌||◌, List, [], ◌∷◌, ◌++◌, Option, none, some, Text, eq_text,
  if◌then◌else◌, map,
}
use freedesk.Session.Inbox.{Request}
use freedesk.Session.Approver.{Answer, is_ok, note_connect_outcome}

-- The values of `status`; `elsewhere` is every other string.
pub data Status : Type 0 where
  waiting connecting connected ended elsewhere : Status

abbrev pub is_waiting : Status → Bool
is_waiting waiting = true
is_waiting connecting = false
is_waiting connected = false
is_waiting ended = false
is_waiting elsewhere = false

pub record Snapshot : Type 0 where
  pub viewer_uid : Text
  pub owner_uid : Text
  pub status : Status

-- What comes first of the session node: its snapshot, its end, the time limit, or the end of the context.
pub data First : Type 0 where
  arrived : Snapshot → First
  gone late cancelled : First

-- What preparing a session comes to.
pub data Prepared : Type 0 where
  ready no_track no_peer : Prepared

-- A request and what it meets.
pub record Visit : Type 0 where
  pub request : Request
  pub starts : Bool
  pub first : First
  pub prepared : Prepared
  pub answer : Answer
  pub withdrawn : Bool
  pub clip_opens : Bool
  pub negotiates : Bool

-- What a session does that others see.
pub data Effect : Type 0 where
  slot_taken slot_freed : Effect
  sets : Status → Effect
  gathers : Effect
  asks : (answer : Answer) → (withdrawn : Bool) → Effect
  reports : Effect
  clip_started clip_stopped : Effect
  negotiated : (came_up : Bool) → Effect
  streams : Effect
  input_released : Effect
  transfers_closed peer_closed : Effect
  node_deleted entry_deleted : Effect

-- `shares_clipboard` is `clipboardMode == ModeText`.
pub record Coordinator : Type 0 where
  pub owner_uid : Text
  pub shares_clipboard : Bool
  pub active : Bool
  pub unapproved : ℕ

-- The request's session node must agree with it and be addressed to this host.
abbrev pub matches : Text → Request → First → Bool
matches owner r (arrived s) =
    eq_text s.viewer_uid r.viewer_uid && eq_text s.owner_uid owner && is_waiting s.status
matches owner r gone = false
matches owner r late = false
matches owner r cancelled = false

abbrev pub finish_request : List Effect
finish_request = sets ended ∷ node_deleted ∷ entry_deleted ∷ []

-- What an approved session holds: its transfers and its clipboard worker, while they are not closed, and
-- whether `release` has run, which it does once.
pub record Live : Type 0 where
  pub visit : Visit
  pub transfers : Bool
  pub clip : Bool
  pub released : Bool

-- Closing what is closed does nothing. The file channel's OnClose closes the same as release.
abbrev pub close_files : (transfers clip : Bool) → List Effect
close_files transfers clip =
    (if transfers then transfers_closed ∷ [] else []) ++ (if clip then clip_stopped ∷ [] else [])

abbrev pub files_closed : Live → Live
files_closed l = record l { transfers = false; clip = false }

unfoldable pub release : Live → Live × List Effect
release l = if l.released then (l, []) else (
  record (files_closed l) { released = true },
  close_files l.transfers l.clip ++ (peer_closed ∷ []),
)

-- From the end of the connection on: release in `run`, finish, and the deferred release and slot.
unfoldable pub close_down : Live → List Effect
unfolding release
close_down l =
    let (l', first) = release l in
    let (_, again) = release l' in first ++ (finish_request ++ (again ++ (slot_freed ∷ [])))

-- The one that has the slot: its question is up, its connection is being negotiated, or it is up.
pub data Held : Type 0 where
  asked : Visit → Held
  negotiating : Live → Held
  streaming : Live → Held

abbrev pub begun : Visit → Bool → Live
begun v clip = record { visit = v; transfers = true; clip = clip; released = false }

-- A request up to the question: the coordinator, the effects, and whether it is now waiting for an answer.
abbrev pub prepare_visit : Coordinator → Visit → Prepared → Coordinator × List Effect × Option Held
prepare_visit c v ready =
    (record c { active = true }, slot_taken ∷ sets connecting ∷ gathers ∷ [], some (asked v))
prepare_visit c v no_track = (
  c,
  slot_taken ∷ sets connecting ∷ transfers_closed ∷ (finish_request ++ (slot_freed ∷ [])),
  none,
)
prepare_visit c v no_peer = (
  c,
  slot_taken ∷ sets connecting ∷ transfers_closed ∷ (finish_request ++ (slot_freed ∷ [])),
  none,
)

unfoldable pub arrive : Coordinator → Visit → Coordinator × List Effect × Option Held
arrive c v =
    if not v.starts || not (matches c.owner_uid v.request v.first)
    then (c, [], none)
    else if c.active
    then (c, finish_request, none)
    else prepare_visit c v v.prepared

-- Run from the answer up to the negotiation, with its begin in `run`.
unfoldable pub answer_visit : Coordinator → Visit → Coordinator × List Effect × Option Held
unfolding release
answer_visit c v =
    let (count, limit) = note_connect_outcome c.unapproved (is_ok v.answer) in
    let clip = c.shares_clipboard && v.clip_opens in
    let told = if limit then reports ∷ [] else [] in
    if v.withdrawn || not (is_ok v.answer)
    then (
      record c { active = false; unapproved = count },
      asks v.answer v.withdrawn
          ∷ (told ++ (finish_request ++ ((release (begun v false)).1 ++ (slot_freed ∷ [])))),
      none,
    )
    else (
      record c { unapproved = count },
      asks v.answer v.withdrawn ∷ (told ++ (if clip then clip_started ∷ [] else [])),
      some (negotiating (begun v clip)),
    )

-- What the negotiation comes to.
unfoldable pub negotiate : Coordinator → Live → Coordinator × List Effect × Option Held
unfolding close_down
negotiate c l =
    if l.visit.negotiates
    then (c, negotiated true ∷ sets connected ∷ streams ∷ [], some (streaming l))
    else (record c { active = false }, negotiated false ∷ close_down l, none)

-- The coordinator, the request or session that has the slot, and all that happened, by request.
pub record Desk : Type 0 where
  pub coordinator : Coordinator
  pub held : Option Held
  pub log : List (Text × Effect)

-- A request comes; the one that waits is answered; its negotiation ends; the file channel closes, or
-- the input channel; the connection ends.
pub data Event : Type 0 where
  comes : Visit → Event
  answers : Event
  negotiates : Event
  files_close : Event
  input_closes : Event
  ends : Event

abbrev pub tagged : Visit → List Effect → List (Text × Effect)
tagged v es = map (λ e. (v.request.id, e)) es

abbrev pub hold : Option Held → Option Held → Option Held
hold held none = held
hold held (some h) = some h

abbrev pub moved : Desk → Visit → Coordinator × List Effect × Option Held → Desk
moved d v (c, es, held) = record { coordinator = c; held = held; log = d.log ++ tagged v es }

abbrev pub answered : Desk → Option Held → Desk
answered d (some (asked v)) = moved d v (answer_visit d.coordinator v)
answered d _ = d

abbrev pub after_negotiation : Desk → Option Held → Desk
after_negotiation d (some (negotiating l)) = moved d l.visit (negotiate d.coordinator l)
after_negotiation d _ = d

abbrev pub after_files : Desk → Option Held → Desk
after_files d (some (negotiating l)) =
    moved d l.visit
      (d.coordinator, close_files l.transfers l.clip, some (negotiating (files_closed l)))
after_files d (some (streaming l)) =
    moved d l.visit
      (d.coordinator, close_files l.transfers l.clip, some (streaming (files_closed l)))
after_files d _ = d

abbrev pub after_input : Desk → Option Held → Desk
after_input d (some (streaming l)) =
    moved d l.visit (d.coordinator, input_released ∷ [], some (streaming l))
after_input d _ = d

abbrev pub after_end : Desk → Option Held → Desk
after_end d (some (streaming l)) =
    moved d l.visit (record d.coordinator { active = false }, input_released ∷ close_down l, none)
after_end d _ = d

unfoldable pub step : Desk → Event → Desk
step d (comes v) = let (c, es, held) = arrive d.coordinator v in moved d v (c, es, hold d.held held)
step d answers = answered d d.held
step d negotiates = after_negotiation d d.held
step d files_close = after_files d d.held
step d input_closes = after_input d d.held
step d ends = after_end d d.held

unfoldable pub run : Desk → List Event → Desk
run d [] = d
run d (e ∷ es) = run (step d e) es

abbrev pub new_desk : Text → Bool → Desk
new_desk owner shares = record {
  coordinator = record {
    owner_uid = owner;
    shares_clipboard = shares;
    active = false;
    unapproved = 0;
  };
  held = none;
  log = [];
}
