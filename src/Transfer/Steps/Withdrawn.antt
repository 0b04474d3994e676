-- ===== src/Transfer/Steps/Withdrawn.antt =====
-- session.go: what becomes of a question when the viewer takes the offer back.
use freedesk.Prelude.{
  ◌≡◌, true, false, ◌||◌, [], Option, none, some, arith, is_some, Text, get_or, subst, sym, ap, ◌∙◌,
}
use freedesk.Transfer.Message.{Msg, cancel, parsed, parse_msg, frame, accept}
use freedesk.Transfer.Paths.{FilePath, Disk}
use freedesk.Transfer.Dest.{created, create}
use freedesk.Transfer.State.{Question, Session, Sending, send}
use freedesk.Transfer.Receive.{
  Env, abort_rx, abort, open_locked, begin_batch, answer_question, answered,
}
use freedesk.Transfer.Chunk.{abort_send_locked}
use freedesk.Transfer.Outbound.{cancel_tx, cancel_send}
use freedesk.Transfer.Steps.{control, answer, World, on_control, on_parsed, handle_control, step}

-- What the question depends on is as it was.
record Waits (s t : Session) : Type 0 where
  asking : t.asking ≡ s.asking
  rx : t.rx ≡ s.rx
  closed : t.closed ≡ s.closed
  disk : t.disk ≡ s.disk
  root : t.root ≡ s.root

cancel_tx-Waits : (id : Text) (s : Session) (o : Option Sending) → Waits s (cancel_tx id s o)
unfolding abort_send_locked
cancel_tx-Waits id s none = ground arith
cancel_tx-Waits id s (some t) = ground arith

abort-idle : (s : Session) (id : Text) → s.rx ≡ none → abort s id ≡ s
unfolding abort
abort-idle s id i = ap (abort_rx id s) i

cancel-Waits : (w : World) (s : Session) (m : Msg) → s.rx ≡ none → Waits s (on_control w s m cancel)
unfolding cancel_send
cancel-Waits w s m i =
    subst (λ t. Waits s (cancel_send t m.id)) (sym (abort-idle s m.id i))
      (cancel_tx-Waits m.id s s.tx)

rx-send : (m : Msg) (s : Session) → (send m s).rx ≡ s.rx
unfolding send
rx-send m s = ground arith

yes_begins :
    (env : Env) (s : Session) (q : Question) (disk : Disk) (path : FilePath)
    → s.asking ≡ some q
    → s.rx ≡ none
    → s.closed ≡ false
    → create env.faults s.disk s.root (get_or q.names 0 []) ≡ (disk, created path)
    → is_some (answered env s true).rx ≡ true
unfolding answered begin_batch open_locked
yes_begins env s q disk path a i c d =
    let open_slot : (s.closed || is_some s.rx) ≡ false = ground arith in
    rw (a, answer_question, open_slot, d) (ap is_some (rx-send (frame accept q.msg.id) _))

-- An offer that the viewer cancels while the operator is being asked stays a question, and a yes to
-- it begins the batch all the same, if the first file can be created.
pub cancelled_question :
    (w w' : World) (s : Session) (o : Option Msg) (m : Msg) (q : Question) (disk : Disk)
    (path : FilePath)
    → parse_msg o ≡ parsed m
    → m.t ≡ cancel
    → s.asking ≡ some q
    → s.rx ≡ none
    → s.closed ≡ false
    → create w'.env.faults s.disk s.root (get_or q.names 0 []) ≡ (disk, created path)
    → is_some (step w' (step w s (control o)) (answer true)).rx ≡ true
unfolding step handle_control
cancelled_question w w' s o m q disk path p t a i c d =
    let control_eq = ap (on_parsed w s) p ∙ ap (on_control w s m) t in
    let k = subst (Waits s) (sym control_eq) (cancel-Waits w s m i) in
    yes_begins w'.env (handle_control w s o) q disk path (k.asking ∙ a) (k.rx ∙ i) (k.closed ∙ c)
      (rw (k.disk, k.root) d)
