-- ===== src/Transfer/Steps/Same.antt =====
-- session.go and send.go: what leaves the disk and the batch that is received alone.
use freedesk.Prelude.{
  ℕ, ◌≡◌, Bool, true, false, List, [], ◌∷◌, Option, none, some, arith, Text, Bool-cases, inl, inr,
}
use freedesk.Transfer.Message.{Msg, refuse, denied, busy}
use freedesk.Transfer.Paths.{FilePath}
use freedesk.Transfer.State.{Sending, Session, send}
use freedesk.Transfer.Receive.{Env, conclude, ask_named, safe_names, is_busy, offered}
use freedesk.Transfer.Chunk.{abort_send_locked}
use freedesk.Transfer.Outbound.{
  claim_send, Kept, keep_files, offer_kept, offer_paths, start_picking, requested, picked,
  offer_claimed, offer_files, cancel_tx, cancel_send,
}

-- The receiving side is as it was.
pub record Same (s t : Session) : Type 0 where
  pub disk : t.disk ≡ s.disk
  pub rx : t.rx ≡ s.rx
  pub files : t.files ≡ s.files
  pub bytes : t.bytes ≡ s.bytes
  pub closed : t.closed ≡ s.closed

pub send-Same : (m : Msg) (s : Session) → Same s (send m s)
unfolding send
send-Same m s = ground arith

pub Same-trans : {s t u : Session} → Same s t → Same t u → Same s u
Same-trans h k = ground arith

abort_send-Same : (s : Session) → Same s (abort_send_locked s)
unfolding abort_send_locked
abort_send-Same s = ground arith

claim_send-Same : (s : Session) (id : Text) → Same s (claim_send s id).0
unfolding claim_send send
claim_send-Same s id = ground arith

offer_kept-Same : (s : Session) (id : Text) (ks : Kept) → Same s (offer_kept s id ks)
unfolding send
offer_kept-Same s id [] = ground (arith, abort_send-Same s)
offer_kept-Same s id (k ∷ ks) = ground arith

offer_paths-Same :
    (stat : FilePath → Option ℕ) (s : Session) (id : Text) (paths : List FilePath)
    → Same s (offer_paths stat s id paths)
unfolding offer_paths
offer_paths-Same stat s id paths = offer_kept-Same s id (keep_files stat paths)

start_picking-Same : (id : Text) (s : Session) (b : Bool) → Same s (start_picking id (s, b))
start_picking-Same id s true = ground arith
start_picking-Same id s false = ground arith

pub requested-Same :
    (has_picker : Bool) (s : Session) (id : Text) → Same s (requested has_picker s id)
unfolding requested
requested-Same true s id =
    Same-trans (claim_send-Same s id)
      (start_picking-Same id (claim_send s id).0 (claim_send s id).1)
requested-Same false s id = send-Same (refuse id busy) s

pub picked-Same :
    (stat : FilePath → Option ℕ) (s : Session) (id : Text) (paths : List FilePath)
    → Same s (picked stat s id paths)
unfolding picked
picked-Same stat s id [] =
    Same-trans (abort_send-Same s) (send-Same (refuse id denied) (abort_send_locked s))
picked-Same stat s id (p ∷ ps) = offer_paths-Same stat s id (p ∷ ps)

offer_claimed-Same :
    (stat : FilePath → Option ℕ) (id : Text) (paths : List FilePath) (s : Session) (b : Bool)
    → Same s (offer_claimed stat id paths (s, b))
offer_claimed-Same stat id paths s true = offer_paths-Same stat s id paths
offer_claimed-Same stat id paths s false = ground arith

pub offer_files-Same :
    (stat : FilePath → Option ℕ) (s : Session) (id : Text) (paths : List FilePath)
    → Same s (offer_files stat s id paths)
unfolding offer_files
offer_files-Same stat s id [] = ground arith
offer_files-Same stat s id (p ∷ ps) =
    Same-trans (claim_send-Same s id)
      (offer_claimed-Same stat id (p ∷ ps) (claim_send s id).0 (claim_send s id).1)

cancel_tx-Same : (id : Text) (s : Session) (o : Option Sending) → Same s (cancel_tx id s o)
cancel_tx-Same id s none = ground arith
cancel_tx-Same id s (some t) = ground (arith, abort_send-Same s)

pub cancel_send-Same : (s : Session) (id : Text) → Same s (cancel_send s id)
unfolding cancel_send
cancel_send-Same s id = cancel_tx-Same id s s.tx

pub conclude-Same : (m : Msg) (s : Session) → Same s (conclude m s)
unfolding send
conclude-Same m s = ground arith

ask_named-Same :
    (env : Env) (m : Msg) (s : Session) (names : Option (List Text))
    → Same s (ask_named env m (record s { pending = true }) names)
unfolding send
ask_named-Same env m s none = ground arith
ask_named-Same env m s (some ns) = ground arith

-- An offer touches neither the disk nor a batch, whatever becomes of it.
pub offered-Same : (env : Env) (s : Session) (m : Msg) → Same s (offered env s m)
unfolding offered
offered-Same env s m = elim (Bool-cases (is_busy s)) [
  | inl b ↦ rw b (send-Same (refuse m.id busy) s)
  | inr i ↦ rw i (ask_named-Same env m s (safe_names m.files))
]
