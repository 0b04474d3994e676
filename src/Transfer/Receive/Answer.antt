-- ===== src/Transfer/Receive/Answer.antt =====
-- session.go: the operator's answer, and giving a batch up, keep the invariant.
use freedesk.Prelude.{
  ℕ, suc, ◌≡◌, refl, Bool, true, false, ◌||◌, List, [], ◌∷◌, Option, none, some, arith, length,
  is_some, Text, Bool-cases, ap, subst, inl, inr,
}
use freedesk.Transfer.Message.{Msg, FileMeta, frame, refuse, fail, accept, busy, denied}
use freedesk.Transfer.Paths.{FilePath, Disk}
use freedesk.Transfer.Dest.{Created, created, refused}
use freedesk.Transfer.State.{Receiving, Question, Session, send}
use freedesk.Transfer.Receive.{
  Env, file_sizes, conclude, opened, open_locked, new_batch, begun, begin_batch, answer_begun,
  answer_question, answered, abort_locked, matches, abort_rx, abort, create_reason,
}
use freedesk.Transfer.Receive.Invariant.{Inv, Within, Fits, AskingFits}
use freedesk.Transfer.Receive.Asking.{conclude-Inv}

pub drop_rx-Inv : (s : Session) (disk : Disk) → Inv s → Inv (record s { disk = disk; rx = none })
drop_rx-Inv s disk h = ground arith

adopt-Inv :
    (m : Msg) (s : Session) (disk : Disk) (r : Receiving)
    → Inv s
    → s.closed ≡ false
    → Within s.files s.bytes r
    → Inv (conclude m (record s { disk = disk; rx = some r }))
unfolding send
adopt-Inv m s disk r h c w = ground arith

length-file_sizes : (fs : List FileMeta) → length (file_sizes fs) ≡ length fs
length-file_sizes [] = refl
length-file_sizes (f ∷ fs) = ap suc (length-file_sizes fs)

-- A batch whose first file has just been opened.
new_batch-Within :
    (files bytes : ℕ) (q : Question) (path : FilePath)
    → Fits files bytes q
    → Within files bytes (record (new_batch q) { is_open = true; path = path; written = 0 })
new_batch-Within files bytes q path f =
    let l = length-file_sizes q.msg.files in
    record {
      open_file = refl;
      in_batch = omega arith;
      paired = omega arith;
      bounded = omega arith;
      few = omega arith;
      small = f.small;
    }

answer_opened-Inv :
    (s : Session) (q : Question) (o : Disk × Created)
    → Inv s
    → s.closed ≡ false
    → Fits s.files s.bytes q
    → Inv (answer_begun q (begun (opened s (new_batch q) o)))
answer_opened-Inv s q (disk, created path) h c f =
    adopt-Inv (frame accept q.msg.id) s disk
      (record (new_batch q) { is_open = true; path = path; written = 0 }) h c
      (new_batch-Within s.files s.bytes q path f)
answer_opened-Inv s q (disk, refused e) h c f =
    conclude-Inv (fail q.msg.id (create_reason e))
      (record s { disk = disk; rx = none; failed = none }) (ground arith)

answer_question-Inv :
    (env : Env) (s : Session) (ok : Bool) (q : Option Question)
    → s.asking ≡ q
    → Inv s
    → Inv (answer_question env s ok q)
unfolding begin_batch open_locked
answer_question-Inv env s ok none e h = h
answer_question-Inv env s false (some q) e h = conclude-Inv (refuse q.msg.id denied) s h
answer_question-Inv env s true (some q) e h = elim (Bool-cases (s.closed || is_some s.rx)) [
  | inl b ↦ rw (b, h.no_failure) (conclude-Inv (refuse q.msg.id busy) s h)
  | inr i ↦
      rw i (answer_opened-Inv s q _ h (ground arith) (subst (AskingFits s.files s.bytes) e h.asked))
]

-- The operator's answer keeps the invariant, also where it comes after the session was closed.
pub answered-Inv : (env : Env) (s : Session) (ok : Bool) → Inv s → Inv (answered env s ok)
unfolding answered
answered-Inv env s ok h = answer_question-Inv env s ok s.asking refl h

abort_rx-Inv : (id : Text) (s : Session) (r : Option Receiving) → Inv s → Inv (abort_rx id s r)
unfolding abort_locked
abort_rx-Inv id s none h = h
abort_rx-Inv id s (some r) h = elim (Bool-cases (matches id r.id)) [
  | inl y ↦ rw y (drop_rx-Inv s _ h)
  | inr n ↦ rw n h
]

pub abort-Inv : (s : Session) (id : Text) → Inv s → Inv (abort s id)
unfolding abort
abort-Inv s id h = abort_rx-Inv id s s.rx h
