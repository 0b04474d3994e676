-- ===== src/Transfer/Steps/Invariant.antt =====
-- session.go: the invariant over every sequence of events.
use freedesk.Prelude.{
  Bool, ◌≤◌, ◌≡◌, refl, true, List, [], ◌∷◌, Option, none, some, arith, Bool-cases, inl, inr, subst,
}
use freedesk.Transfer.Message.{
  Msg, Kind, offer, request, cancel, error, Dir, up, Parsed, parsed, parse_msg, validate,
  max_session_files, max_session_bytes,
}
use freedesk.Transfer.Paths.{FilePath, Disk}
use freedesk.Transfer.State.{Receiving, Session, new_session, attach}
use freedesk.Transfer.Receive.{Env}
use freedesk.Transfer.Receive.Invariant.{Inv, Within, RxWithin, new_session-Inv}
use freedesk.Transfer.Receive.Asking.{offered-Inv}
use freedesk.Transfer.Receive.Answer.{answered-Inv, abort-Inv}
use freedesk.Transfer.Chunk.Invariant.{handle_chunk-Inv, close-Inv}
use freedesk.Transfer.Outbound.Invariant.{
  requested-Inv, picked-Inv, offer_files-Inv, cancel_send-Inv,
}
use freedesk.Transfer.Steps.{
  Event, control, chunk, answer, picks, copies, attaches, closes, World, offered_up, on_control,
  on_parsed, step, run,
}

offered_up-Inv :
    (env : Env) (s : Session) (m : Msg) (d : Dir)
    → validate m ≡ true
    → m.t ≡ offer
    → Inv s
    → Inv (offered_up env s m d)
offered_up-Inv env s m up v t h = offered-Inv env s m v t h
offered_up-Inv env s m _ v t h = h

on_control-Inv :
    (w : World) (s : Session) (m : Msg) (k : Kind)
    → validate m ≡ true
    → m.t ≡ k
    → Inv s
    → Inv (on_control w s m k)
on_control-Inv w s m offer v t h = offered_up-Inv w.env s m m.dir v t h
on_control-Inv w s m request v t h = requested-Inv w.has_picker s m.id h
on_control-Inv w s m cancel v t h = cancel_send-Inv _ m.id (abort-Inv s m.id h)
on_control-Inv w s m error v t h = cancel_send-Inv _ m.id (abort-Inv s m.id h)
on_control-Inv w s m _ v t h = h

parse_msg-valid : (o : Option Msg) (m : Msg) → parse_msg o ≡ parsed m → validate m ≡ true
unfolding parse_msg
parse_msg-valid none m e = absurd (ground arith)
parse_msg-valid (some m') m e = elim (Bool-cases (validate m')) [
  | inl y ↦ let same : m' ≡ m = ground arith in subst (λ x. validate x ≡ true) same y
  | inr n ↦ absurd (ground arith)
]

on_parsed-Inv :
    (w : World) (s : Session) (p : Parsed)
    → ((m : Msg) → p ≡ parsed m → validate m ≡ true)
    → Inv s
    → Inv (on_parsed w s p)
on_parsed-Inv w s (parsed m) v h = on_control-Inv w s m m.t (v m refl) refl h
on_parsed-Inv w s _ v h = h

-- Every event, whatever the peer sends and the operating system answers, keeps the invariant.
pub step-Inv : (w : World) (s : Session) (e : Event) → Inv s → Inv (step w s e)
unfolding step attach
step-Inv w s (control frame) h = on_parsed-Inv w s (parse_msg frame) (parse_msg-valid frame) h
step-Inv w s (chunk bytes) h = handle_chunk-Inv w.env s bytes h
step-Inv w s (answer ok) h = answered-Inv w.env s ok h
step-Inv w s (picks id paths) h = picked-Inv w.stat s id paths h
step-Inv w s (copies id paths) h = offer_files-Inv w.stat s id paths h
step-Inv w s attaches h = ground arith
step-Inv w s closes h = close-Inv s h

pub run-Inv : (s : Session) (es : List (World × Event)) → Inv s → Inv (run s es)
unfolding run
run-Inv s [] h = h
run-Inv s ((w, e) ∷ es) h = run-Inv (step w s e) es (step-Inv w s e h)

-- Whatever is sent and answered, in any order: a session accepts at most 200 files and 4 GiB, and of
-- the file that is being received, the index is one of its batch and no more bytes were written
-- than were declared for it.
pub run-new_session_bounds :
    (root : FilePath) (disk : Disk) (stuck : FilePath → Bool) (es : List (World × Event))
    → let s = run (new_session root disk stuck) es in
      (s.files ≤ max_session_files)
      × (s.bytes ≤ max_session_bytes)
      × ((r : Receiving) → s.rx ≡ some r → Within s.files s.bytes r)
run-new_session_bounds root disk stuck es =
    let h = run-Inv (new_session root disk stuck) es (new_session-Inv root disk stuck) in
    (h.few_files, h.few_bytes, λ r e. subst (RxWithin _ _) e h.receiving)
