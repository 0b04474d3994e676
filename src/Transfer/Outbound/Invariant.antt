-- ===== src/Transfer/Outbound/Invariant.antt =====
-- send.go: offering files keeps the invariant.
use freedesk.Prelude.{
  ℕ, Bool, true, false, List, [], ◌∷◌, Option, none, some, arith, Text, Bool-cases, inl, inr,
}
use freedesk.Transfer.Paths.{FilePath}
use freedesk.Transfer.State.{Sending, Session, send}
use freedesk.Transfer.Receive.{matches}
use freedesk.Transfer.Receive.Invariant.{Inv, send-Inv}
use freedesk.Transfer.Chunk.Invariant.{abort_send-Inv}
use freedesk.Transfer.Outbound.{
  claim_send, Kept, keep_files, offer_kept, offer_paths, start_picking, requested, picked,
  offer_claimed, offer_files, cancel_tx, cancel_send,
}

claim_send-Inv : (s : Session) (id : Text) → Inv s → Inv (claim_send s id).0
unfolding claim_send send
claim_send-Inv s id h = ground arith

offer_kept-Inv : (s : Session) (id : Text) (ks : Kept) → Inv s → Inv (offer_kept s id ks)
offer_kept-Inv s id [] h = send-Inv _ _ (abort_send-Inv s h)
offer_kept-Inv s id (k ∷ ks) h = send-Inv _ _ (ground arith)

offer_paths-Inv :
    (stat : FilePath → Option ℕ) (s : Session) (id : Text) (paths : List FilePath)
    → Inv s
    → Inv (offer_paths stat s id paths)
unfolding offer_paths
offer_paths-Inv stat s id paths h = offer_kept-Inv s id (keep_files stat paths) h

start_picking-Inv : (id : Text) (s : Session) (b : Bool) → Inv s → Inv (start_picking id (s, b))
start_picking-Inv id s true h = ground arith
start_picking-Inv id s false h = h

pub requested-Inv :
    (has_picker : Bool) (s : Session) (id : Text) → Inv s → Inv (requested has_picker s id)
unfolding requested
requested-Inv true s id h =
    start_picking-Inv id (claim_send s id).0 (claim_send s id).1 (claim_send-Inv s id h)
requested-Inv false s id h = send-Inv _ s h

pub picked-Inv :
    (stat : FilePath → Option ℕ) (s : Session) (id : Text) (paths : List FilePath)
    → Inv s
    → Inv (picked stat s id paths)
unfolding picked
picked-Inv stat s id [] h = send-Inv _ _ (abort_send-Inv s h)
picked-Inv stat s id (p ∷ ps) h = offer_paths-Inv stat s id (p ∷ ps) h

offer_claimed-Inv :
    (stat : FilePath → Option ℕ) (id : Text) (paths : List FilePath) (s : Session) (b : Bool)
    → Inv s
    → Inv (offer_claimed stat id paths (s, b))
offer_claimed-Inv stat id paths s true h = offer_paths-Inv stat s id paths h
offer_claimed-Inv stat id paths s false h = h

pub offer_files-Inv :
    (stat : FilePath → Option ℕ) (s : Session) (id : Text) (paths : List FilePath)
    → Inv s
    → Inv (offer_files stat s id paths)
unfolding offer_files
offer_files-Inv stat s id [] h = h
offer_files-Inv stat s id (p ∷ ps) h =
    offer_claimed-Inv stat id (p ∷ ps) (claim_send s id).0 (claim_send s id).1
      (claim_send-Inv s id h)

cancel_tx-Inv : (id : Text) (s : Session) (o : Option Sending) → Inv s → Inv (cancel_tx id s o)
cancel_tx-Inv id s none h = h
cancel_tx-Inv id s (some t) h = elim (Bool-cases (matches id t.id)) [
  | inl y ↦ rw y (abort_send-Inv s h)
  | inr n ↦ rw n h
]

pub cancel_send-Inv : (s : Session) (id : Text) → Inv s → Inv (cancel_send s id)
unfolding cancel_send
cancel_send-Inv s id h = cancel_tx-Inv id s s.tx h
