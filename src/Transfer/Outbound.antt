-- ===== src/Transfer/Outbound.antt =====
-- host-agent/internal/transfer/send.go: offering files to the viewer.
pub mod Invariant
pub mod Offers
use freedesk.Prelude.{
  ℕ, suc, ◌+◌, Bool, true, false, not, ◌&&◌, ◌||◌, List, [], ◌∷◌, ◌++◌, Option, none, some, map,
  if◌then◌else◌, ltb, leb, length, get_elem?, get_or, is_some, Text, text, is_empty, eq_text, ℤ,
  pos,
}
use freedesk.Transfer.Message.{
  Msg, FileMeta, frame, refuse, fail, offer, complete, down, busy, denied, too_large, io,
}
use freedesk.Transfer.Paths.{FilePath}
use freedesk.Transfer.State.{Sending, Session, send}
use freedesk.Transfer.Receive.{matches}
use freedesk.Transfer.Chunk.{abort_send_locked}

abbrev pub max_download_bytes : ℕ
max_download_bytes = 268435456

-- filepath.Base
abbrev pub base_name : FilePath → Text
base_name [] = text "/"
base_name (c ∷ up) = c

-- claimSend
unfoldable pub claim_send : Session → Text → Session × Bool
claim_send s id = if s.closed || is_some s.tx then (send (refuse id busy) s, false) else (
  record s {
    tx = some (record { id = id; paths = []; names = []; sizes = []; cancel = s.next_cancel });
    next_cancel = suc s.next_cancel;
  },
  true,
)

-- One file that may be offered: its path and its size.
abbrev pub Kept : Type 0
Kept = List (FilePath × ℕ)

abbrev pub keep_one : FilePath → Option ℕ → Kept → Kept
keep_one p none rest = rest
keep_one p (some size) rest =
    if not (ltb 0 size) || ltb max_download_bytes size then rest else (p, size) ∷ rest

-- The loop of offerPaths. `stat` is the size of a file, `none` for what is not there or a folder.
unfoldable pub keep_files : (FilePath → Option ℕ) → List FilePath → Kept
keep_files stat [] = []
keep_files stat (p ∷ ps) = keep_one p (stat p) (keep_files stat ps)

abbrev pub kept_paths : Kept → List FilePath
kept_paths ks = map (λ k. k.0) ks

abbrev pub kept_names : Kept → List Text
kept_names ks = map (λ k. base_name k.0) ks

abbrev pub kept_sizes : Kept → List ℕ
kept_sizes ks = map (λ k. k.1) ks

abbrev pub meta_of : FilePath × ℕ → FileMeta
meta_of (p, size) = record { name = base_name p; size = pos size }

abbrev pub kept_files : Kept → List FileMeta
kept_files ks = map meta_of ks

abbrev pub fill_tx : Text → Kept → Option Sending → Option Sending
fill_tx id ks none = none
fill_tx id ks (some t) =
    if eq_text t.id id
    then some (record t { paths = kept_paths ks; names = kept_names ks; sizes = kept_sizes ks })
    else some t

abbrev pub offer_kept : Session → Text → Kept → Session
offer_kept s id [] = send (refuse id too_large) (abort_send_locked s)
offer_kept s id (k ∷ ks) =
    send (record (frame offer id) { dir = down; files = kept_files (k ∷ ks) })
      (record s { tx = fill_tx id (k ∷ ks) s.tx })

-- offerPaths
unfoldable pub offer_paths : (FilePath → Option ℕ) → Session → Text → List FilePath → Session
offer_paths stat s id paths = offer_kept s id (keep_files stat paths)

abbrev pub start_picking : Text → Session × Bool → Session
start_picking id (s, true) = record s { picking = id ∷ s.picking }
start_picking id (s, false) = s

-- `requested` up to the picker; `has_picker` is that there is one and that it is available.
unfoldable pub requested : Bool → Session → Text → Session
requested has_picker s id =
    if not has_picker then send (refuse id busy) s else start_picking id (claim_send s id)

-- `requested` from the picker's answer on: no paths is a picker that was cancelled.
unfoldable pub picked : (FilePath → Option ℕ) → Session → Text → List FilePath → Session
picked stat s id [] = send (refuse id denied) (abort_send_locked s)
picked stat s id (p ∷ ps) = offer_paths stat s id (p ∷ ps)

abbrev pub offer_claimed : (FilePath → Option ℕ) → Text → List FilePath → Session × Bool → Session
offer_claimed stat id paths (s, true) = offer_paths stat s id paths
offer_claimed stat id paths (s, false) = s

-- OfferFiles
unfoldable pub offer_files : (FilePath → Option ℕ) → Session → Text → List FilePath → Session
offer_files stat s id [] = s
offer_files stat s id (p ∷ ps) = offer_claimed stat id (p ∷ ps) (claim_send s id)

abbrev pub cancel_tx : Text → Session → Option Sending → Session
cancel_tx id s none = s
cancel_tx id s (some t) = if matches id t.id then abort_send_locked s else s

-- cancelSend
unfoldable pub cancel_send : Session → Text → Session
cancel_send s id = cancel_tx id s s.tx

-- Which file an accept frame starts: path, name, size and the channel that stops it.
pub record Job : Type 0 where
  pub path : FilePath
  pub name : Text
  pub size : ℕ
  pub cancel : ℕ

abbrev pub job_at : Sending → ℤ → Option Job
job_at t (ℤ.negsuc n) = none
job_at t (ℤ.pos i) = elim (get_elem? t.paths i) [
  | none ↦ none
  | some p ↦ some (record {
    path = p;
    name = get_or t.names i [];
    size = get_or t.sizes i 0;
    cancel = t.cancel;
  })
]

abbrev pub job_of : Text → ℤ → Option Sending → Option Job
job_of id i none = none
job_of id i (some t) = if eq_text t.id id then job_at t i else none

-- `accepted` up to the stream.
unfoldable pub accepted_job : Session → Text → ℤ → Option Job
accepted_job s id i = job_of id i s.tx
