-- ===== src/Transfer/Receive/Invariant.antt =====
-- session.go: what holds of a session between two events.
use freedesk.Prelude.{
  Bool, ℕ, ◌+◌, ◌≤◌, ◌<◌, ◌≡◌, true, List, [], ◌∷◌, Option, none, some, arith, length, get_or, drop,
  is_some,
}
use freedesk.Transfer.Message.{Msg, max_session_files, max_session_bytes}
use freedesk.Transfer.State.{Receiving, Question, Session, new_session, send}
use freedesk.Transfer.Receive.{file_sizes}

abbrev pub sum : List ℕ → ℕ
sum [] = 0
sum (n ∷ ns) = n + sum ns

-- A batch that is being written: a file is open, the index is one of the batch, and no more was
-- written than was declared. With the files and bytes of the session so far, the rest of the
-- batch stays within the limits of the session.
pub record Within (files bytes : ℕ) (r : Receiving) : Type 0 where
  pub open_file : r.is_open ≡ true
  pub in_batch : r.index < length r.names
  pub paired : length r.sizes ≡ length r.names
  pub bounded : r.written ≤ get_or r.sizes r.index 0
  pub few : files + length (drop r.index r.names) ≤ max_session_files
  pub small : bytes + sum (drop r.index r.sizes) ≤ max_session_bytes

abbrev pub RxWithin : ℕ → ℕ → Option Receiving → Type 0
RxWithin files bytes none = Unit
RxWithin files bytes (some r) = Within files bytes r

-- A batch that the operator is asked about fits too, if nothing else is accepted meanwhile.
pub record Fits (files bytes : ℕ) (q : Question) : Type 0 where
  pub named : length q.names ≡ length q.msg.files
  pub nonempty : 0 < length q.msg.files
  pub few : files + length q.msg.files ≤ max_session_files
  pub small : bytes + sum (file_sizes q.msg.files) ≤ max_session_bytes

abbrev pub AskingFits : ℕ → ℕ → Option Question → Type 0
AskingFits files bytes none = Unit
AskingFits files bytes (some q) = Fits files bytes q

pub record Inv (s : Session) : Type 0 where
  pub receiving : RxWithin s.files s.bytes s.rx
  pub asked : AskingFits s.files s.bytes s.asking
  pub one_question : s.pending ≡ is_some s.asking
  pub asked_alone : is_some s.asking ≡ true → s.rx ≡ none
  pub shut : s.closed ≡ true → (s.rx ≡ none) × (s.tx ≡ none)
  pub few_files : s.files ≤ max_session_files
  pub few_bytes : s.bytes ≤ max_session_bytes
  pub no_failure : s.failed ≡ none

pub new_session-Inv :
    (root : List (List ℕ)) (disk : List (List (List ℕ) × List ℕ)) (stuck : List (List ℕ) → Bool)
    → Inv (new_session root disk stuck)
unfolding new_session
new_session-Inv root disk stuck = ground arith

pub send-Inv : (m : Msg) (s : Session) → Inv s → Inv (send m s)
unfolding send
send-Inv m s h = ground arith
