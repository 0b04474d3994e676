-- ===== src/Transfer/Outbound/Offers.antt =====
-- send.go: which files can leave the machine, and what ends an offer.
use freedesk.Prelude.{
  ℕ, zero, suc, ◌≤◌, ◌<◌, ◌≡◌, refl, true, List, [], ◌∷◌, Option, none, some, arith, Text, eq_text,
  get_elem?, pos, inl, inr, Bool-cases, ltb, subst, ap, ◌∙◌, not, ◌||◌,
}
use freedesk.Transfer.Message.{Msg, frame, refuse, offer, down, denied, too_large}
use freedesk.Transfer.Paths.{FilePath}
use freedesk.Transfer.State.{Sending, Session, send}
use freedesk.Transfer.Chunk.{abort_send_locked}
use freedesk.Transfer.Outbound.{
  max_download_bytes, Kept, keep_one, keep_files, kept_paths, kept_names, kept_sizes, kept_files,
  base_name, fill_tx, offer_kept, offer_paths, picked, Job, job_at, job_of, accepted_job,
}

-- A file that is there, and of a size that may be sent.
abbrev pub MaySend : (FilePath → Option ℕ) → FilePath → ℕ → Type 0
MaySend stat p size = (stat p ≡ some size) × (0 < size) × (size ≤ max_download_bytes)

abbrev MaySendKept : (FilePath → Option ℕ) → FilePath × ℕ → Type 0
MaySendKept stat (p, size) = MaySend stat p size

abbrev AllAt : (FilePath × ℕ → Type 0) → Kept → Type 0
AllAt P ks = (i : ℕ) (k : FilePath × ℕ) → get_elem? ks i ≡ some k → P k

AllAt-cons :
    (P : FilePath × ℕ → Type 0) (k : FilePath × ℕ) (ks : Kept) → P k → AllAt P ks → AllAt P (k ∷ ks)
AllAt-cons P k ks h hs zero x e = let same : k ≡ x = ground arith in subst P same h
AllAt-cons P k ks h hs (suc i) x e = hs i x e

keep_one-MaySend :
    (stat : FilePath → Option ℕ) (p : FilePath) (o : Option ℕ) (rest : Kept)
    → stat p ≡ o
    → AllAt (MaySendKept stat) rest
    → AllAt (MaySendKept stat) (keep_one p o rest)
keep_one-MaySend stat p none rest e h = h
keep_one-MaySend stat p (some n) rest e h =
    elim (Bool-cases (not (ltb 0 n) || ltb max_download_bytes n)) [
      | inl bad ↦ rw bad h
      | inr good ↦
          rw good (AllAt-cons (MaySendKept stat) (p, n) rest (e, ground arith, ground arith) h)
    ]

keep_files-MaySend :
    (stat : FilePath → Option ℕ) (ps : List FilePath)
    → AllAt (MaySendKept stat) (keep_files stat ps)
unfolding keep_files
keep_files-MaySend stat [] = λ i k e. absurd (ground arith)
keep_files-MaySend stat (p ∷ ps) =
    keep_one-MaySend stat p (stat p) (keep_files stat ps) refl (keep_files-MaySend stat ps)

job_at-kept :
    (t : Sending) (ks : Kept) (i : ℕ) (job : Job)
    → job_at
        (record t { paths = kept_paths ks; names = kept_names ks; sizes = kept_sizes ks })
        (pos i)
      ≡ some job
    → get_elem? ks i ≡ some (job.path, job.size)
job_at-kept t [] i job h = absurd (ground arith)
job_at-kept t ((p, n) ∷ ks) zero job h = ground arith
job_at-kept t ((p, n) ∷ ks) (suc i) job h = job_at-kept t ks i job h

job_of-kept :
    (stat : FilePath → Option ℕ) (id : Text) (t : Sending) (ks : Kept) (i : ℕ) (job : Job)
    → eq_text t.id id ≡ true
    → AllAt (MaySendKept stat) ks
    → job_of id (pos i) (fill_tx id ks (some t)) ≡ some job
    → MaySend stat job.path job.size
job_of-kept stat id t ks i job e h j =
    h i (job.path, job.size) (job_at-kept t ks i job (ground arith))

tx-send : (m : Msg) (s : Session) → (send m s).tx ≡ s.tx
unfolding send
tx-send m s = ground arith

stopped-send : (m : Msg) (s : Session) → (send m s).stopped ≡ s.stopped
unfolding send
stopped-send m s = ground arith

abort_send_lem :
    (s : Session) (t : Sending)
    → s.tx ≡ some t
    → ((abort_send_locked s).tx ≡ none) × ((abort_send_locked s).stopped ≡ t.cancel ∷ s.stopped)
unfolding abort_send_locked
abort_send_lem s t x = ground arith

offer_kept-job :
    (stat : FilePath → Option ℕ) (s : Session) (id : Text) (t : Sending) (ks : Kept) (i : ℕ)
    (job : Job)
    → s.tx ≡ some t
    → eq_text t.id id ≡ true
    → AllAt (MaySendKept stat) ks
    → job_of id (pos i) (offer_kept s id ks).tx ≡ some job
    → MaySend stat job.path job.size
offer_kept-job stat s id t [] i job x e h j =
    let gone = tx-send (refuse id too_large) (abort_send_locked s) ∙ (abort_send_lem s t x).0 in
    let never = subst (λ o. job_of id (pos i) o ≡ some job) gone j in absurd (ground arith)
offer_kept-job stat s id t (k ∷ ks) i job x e h j =
    let filled =
      tx-send _ (record s { tx = fill_tx id (k ∷ ks) s.tx }) ∙ ap (fill_tx id (k ∷ ks)) x in
    job_of-kept stat id t (k ∷ ks) i job e h (subst (λ o. job_of id (pos i) o ≡ some job) filled j)

-- What the offer frame says of the file that an index means.
announced :
    (t : Sending) (ks : Kept) (i : ℕ) (job : Job)
    → job_at
        (record t { paths = kept_paths ks; names = kept_names ks; sizes = kept_sizes ks })
        (pos i)
      ≡ some job
    → get_elem? (kept_files ks) i ≡ some (record { name = base_name job.path; size = pos job.size })
announced t [] i job h = absurd (ground arith)
announced t (k ∷ ks) zero job h = ground arith
announced t (k ∷ ks) (suc i) job h = announced t ks i job h

abbrev pub Announces : List Msg → List Msg → Text → ℕ → Job → Type 0
Announces after before id i job =
    (m : Msg) × (after ≡ m ∷ before)
    × (m.t ≡ offer)
    × (m.dir ≡ down)
    × (m.id ≡ id)
    × (get_elem? m.files i ≡ some (record { name = base_name job.path; size = pos job.size }))

offer_kept-announced :
    (s : Session) (id : Text) (t : Sending) (ks : Kept) (i : ℕ) (job : Job)
    → s.has_channel ≡ true
    → s.tx ≡ some t
    → eq_text t.id id ≡ true
    → job_of id (pos i) (offer_kept s id ks).tx ≡ some job
    → Announces (offer_kept s id ks).sent s.sent id i job
offer_kept-announced s id t [] i job c x e j =
    let gone = tx-send (refuse id too_large) (abort_send_locked s) ∙ (abort_send_lem s t x).0 in
    let never = subst (λ o. job_of id (pos i) o ≡ some job) gone j in absurd (ground arith)
offer_kept-announced s id t (k ∷ ks) i job c x e j =
    let filled =
      tx-send _ (record s { tx = fill_tx id (k ∷ ks) s.tx }) ∙ ap (fill_tx id (k ∷ ks)) x in
    let made = subst (λ o. job_of id (pos i) o ≡ some job) filled j in
    let at : job_at
          (record t {
            paths = kept_paths (k ∷ ks);
            names = kept_names (k ∷ ks);
            sizes = kept_sizes (k ∷ ks);
          })
          (pos i)
        ≡ some job =
      ground arith in
    (
      record (frame offer id) { dir = down; files = kept_files (k ∷ ks) },
      unfold send in rw c refl,
      unfold frame in refl,
      refl,
      unfold frame in refl,
      announced t (k ∷ ks) i job at,
    )

-- A file that an accept frame starts to stream, of a batch that was offered for the id over a channel
-- that is there, was a readable file of 1 byte to 256 MiB, and the offer frame, the one frame that
-- was sent, announces under the file's index the name of its path and the size that it had then.
pub offer_paths-accepted :
    (stat : FilePath → Option ℕ) (s : Session) (id : Text) (paths : List FilePath) (t : Sending)
    (i : ℕ) (job : Job)
    → s.has_channel ≡ true
    → s.tx ≡ some t
    → eq_text t.id id ≡ true
    → accepted_job (offer_paths stat s id paths) id (pos i) ≡ some job
    → MaySend stat job.path job.size × Announces (offer_paths stat s id paths).sent s.sent id i job
unfolding offer_paths accepted_job
offer_paths-accepted stat s id paths t i job c x e j = (
  offer_kept-job stat s id t (keep_files stat paths) i job x e (keep_files-MaySend stat paths) j,
  offer_kept-announced s id t (keep_files stat paths) i job c x e j,
)

-- A picker that is cancelled ends whatever batch has the outbound slot by then, whichever id that
-- batch has.
pub picked_cancelled :
    (stat : FilePath → Option ℕ) (s : Session) (id : Text) (t : Sending)
    → s.tx ≡ some t
    → ((picked stat s id []).tx ≡ none) × ((picked stat s id []).stopped ≡ t.cancel ∷ s.stopped)
unfolding picked
picked_cancelled stat s id t x =
    let (gone, stop) = abort_send_lem s t x in
    let m = refuse id denied in
    let aborted = abort_send_locked s in (tx-send m aborted ∙ gone, stopped-send m aborted ∙ stop)
