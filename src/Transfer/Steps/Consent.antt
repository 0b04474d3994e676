-- ===== src/Transfer/Steps/Consent.antt =====
-- session.go: nothing is written without a yes, and nothing at all once the session is closed.
use freedesk.Prelude.{
  ℕ, ◌≡◌, ◌≢◌, refl, Bool, true, false, List, [], ◌∷◌, Option, none, some, arith, Text, ◌∙◌, subst,
  sym,
}
use freedesk.Transfer.Message.{
  Msg, Kind, offer, request, cancel, error, Dir, up, Parsed, parsed, parse_msg, refuse, busy,
}
use freedesk.Transfer.State.{Question, Session, send, attach}
use freedesk.Transfer.Receive.{
  Env, abort_locked, abort_rx, abort, answer_question, answered, begin_batch, send_failure,
  answer_begun,
}
use freedesk.Transfer.Receive.Invariant.{Inv}
use freedesk.Transfer.Chunk.{chunk_rx, handle_chunk, abort_send_locked, close}
use freedesk.Transfer.Steps.{
  Event, control, chunk, answer, picks, copies, attaches, closes, World, offered_up, on_control,
  on_parsed, step, run,
}
use freedesk.Transfer.Steps.Invariant.{step-Inv}
use freedesk.Transfer.Steps.Same.{
  Same, Same-trans, requested-Same, picked-Same, offer_files-Same, cancel_send-Same, conclude-Same,
  offered-Same,
}

module _ (s : Session) (idle : s.rx ≡ none) where
  abort-Same : (id : Text) → Same s (abort s id)
  unfolding abort
  abort-Same id = rw (idle, abort_rx) (ground arith)

  handle_chunk-Same : (env : Env) (bytes : List ℕ) → Same s (handle_chunk env s bytes)
  unfolding handle_chunk
  handle_chunk-Same env bytes = rw (idle, chunk_rx) (ground arith)

  on_control-Same : (w : World) (m : Msg) (k : Kind) → Same s (on_control w s m k)
  on_control-Same w m offer = offered_up-Same m.dir
    where
      offered_up-Same : (d : Dir) → Same s (offered_up w.env s m d)
      offered_up-Same up = offered-Same w.env s m
      offered_up-Same _ = ground arith
  on_control-Same w m request = requested-Same w.has_picker s m.id
  on_control-Same w m cancel = Same-trans (abort-Same m.id) (cancel_send-Same (abort s m.id) m.id)
  on_control-Same w m error = Same-trans (abort-Same m.id) (cancel_send-Same (abort s m.id) m.id)
  on_control-Same w m _ = ground arith

  on_parsed-Same : (w : World) (p : Parsed) → Same s (on_parsed w s p)
  on_parsed-Same w (parsed m) = on_control-Same w m m.t
  on_parsed-Same w _ = ground arith

answer_no-Same :
    (env : Env) (s : Session) (o : Option Question) → Same s (answer_question env s false o)
answer_no-Same env s none = ground arith
answer_no-Same env s (some q) = conclude-Same _ s

-- While no batch is being received, no event but the operator's yes changes the disk or starts one.
pub step-needs_yes :
    (w : World) (s : Session) (e : Event)
    → s.rx ≡ none
    → e ≢ answer true
    → ((step w s e).disk ≡ s.disk) × ((step w s e).rx ≡ none)
unfolding step attach answered close abort_send_locked abort_locked
step-needs_yes w s (control frame) i n = ground (arith, on_parsed-Same s i w (parse_msg frame))
step-needs_yes w s (chunk bytes) i n = ground (arith, handle_chunk-Same s i w.env bytes)
step-needs_yes w s (answer true) i n = absurd (n refl)
step-needs_yes w s (answer false) i n = ground (arith, answer_no-Same w.env s s.asking)
step-needs_yes w s (picks id paths) i n = ground (arith, picked-Same w.stat s id paths)
step-needs_yes w s (copies id paths) i n = ground (arith, offer_files-Same w.stat s id paths)
step-needs_yes w s attaches i n = ground arith
step-needs_yes w s closes i n = ground arith

send_failure-Same : (m : Msg) (s : Session) (o : Option Msg) → Same s (send_failure m s o)
unfolding send
send_failure-Same m s none = conclude-Same m s
send_failure-Same m s (some f) = ground arith

begin_batch_closed :
    (env : Env) (s : Session) (q : Question) → s.closed ≡ true → begin_batch env s q ≡ (s, false)
unfolding begin_batch
begin_batch_closed env s q c = ground arith

answer_closed-Same :
    (env : Env) (s : Session) (ok : Bool) (o : Option Question)
    → s.closed ≡ true
    → Same s (answer_question env s ok o)
answer_closed-Same env s ok none c = ground arith
answer_closed-Same env s false (some q) c = conclude-Same _ s
answer_closed-Same env s true (some q) c =
    subst (λ x. Same s (answer_begun q x)) (sym (begin_batch_closed env s q c))
      (send_failure-Same (refuse q.msg.id busy) s s.failed)

step-closed : (w : World) (s : Session) (e : Event) → Inv s → s.closed ≡ true → Same s (step w s e)
unfolding step attach answered close
step-closed w s (control frame) h c = on_parsed-Same s (h.shut c).0 w (parse_msg frame)
step-closed w s (chunk bytes) h c = handle_chunk-Same s (h.shut c).0 w.env bytes
step-closed w s (answer ok) h c = answer_closed-Same w.env s ok s.asking c
step-closed w s (picks id paths) h c = picked-Same w.stat s id paths
step-closed w s (copies id paths) h c = offer_files-Same w.stat s id paths
step-closed w s attaches h c = ground arith
step-closed w s closes h c = ground arith

-- Once a session is closed, no sequence of events changes the disk, receives or sends a batch, or
-- opens it again.
pub run-closed :
    (s : Session) (es : List (World × Event))
    → Inv s
    → s.closed ≡ true
    → ((run s es).disk ≡ s.disk)
      × ((run s es).rx ≡ none)
      × ((run s es).tx ≡ none)
      × ((run s es).closed ≡ true)
unfolding run
run-closed s [] h c = (refl, (h.shut c).0, (h.shut c).1, c)
run-closed s ((w, e) ∷ es) h c =
    let k = step-closed w s e h c in
    let (d, r, t, o) = run-closed (step w s e) es (step-Inv w s e h) (k.closed ∙ c) in
    (d ∙ k.disk, r, t, o)
