-- ===== src/Transfer/Chunk/Saved.antt =====
-- session.go: what the chunks of a file leave on the disk.
use freedesk.Prelude.{
  not, ◌&&◌, ℕ, suc, ◌+◌, ◌<◌, ◌≡◌, refl, Bool, true, false, List, [], ◌∷◌, ◌++◌, Option, none,
  some, arith, length, if◌then◌else◌, leb, Bool-cases, subst, inl, inr, sym, ◌∙◌, Text, get_or, ap,
}
use freedesk.Transfer.Message.{Msg, fail, too_large}
use freedesk.Transfer.Paths.{FilePath, Disk, look, eq_path}
use freedesk.Transfer.Paths.Clean.{eq_path_iff, eq_path_refl, look-put}
use freedesk.Transfer.Dest.{Faults, Created, created, refused, create, IoError, finish, part}
use freedesk.Transfer.Dest.Create.{create_created, create_refused}
use freedesk.Transfer.Dest.Parts.{finish_done, look-abandon}
use freedesk.Transfer.State.{Receiving, Session, send}
use freedesk.Transfer.Receive.{Env, opened, open_locked, abort_locked}
use freedesk.Transfer.Chunk.{
  size_of, append_file, send_opt, call_pasted, report_saved, next_file, renamed, finish_rx,
  finish_file, is_due, progress_frame, written_chunk, chunk_rx, handle_chunk,
}

-- Create never touches a file that is there.
create_keeps :
    (faults : Faults) (disk : Disk) (root : FilePath) (name : Text) (o : Disk × Created)
    (p : FilePath) (bytes : List ℕ)
    → create faults disk root name ≡ o
    → look p disk ≡ some bytes
    → look p o.0 ≡ some bytes
create_keeps faults disk root name (after, refused x) p bytes e h =
    create_refused faults disk root name after x e p bytes h
create_keeps faults disk root name (after, created final) p bytes e h =
    let (_, made, _, _, _, gone, folders, d) = create_created faults disk root name after final e in
    let there : look p made ≡ some bytes = folders p ∙ rw h refl in
    rw (d, look-put p (part final) [] made)
      (ground (arith, eq_path_iff (part final) p, gone, there, h))

disk-send : (m : Msg) (s : Session) → (send m s).disk ≡ s.disk
unfolding send
disk-send m s = ground arith

disk-send_opt : (m : Option Msg) (s : Session) → (send_opt m s).disk ≡ s.disk
disk-send_opt none s = refl
disk-send_opt (some m) s = disk-send m s

disk-call_pasted : (ps : List FilePath) (s : Session) → (call_pasted ps s).disk ≡ s.disk
disk-call_pasted [] s = refl
disk-call_pasted (p ∷ ps) s = refl

disk-report_saved :
    (r : Receiving) (batch : List FilePath) (s : Session) (m : Option Msg)
    → (report_saved r batch (s, m)).disk ≡ s.disk
disk-report_saved r batch s m = disk-call_pasted batch _ ∙ (disk-send_opt m _ ∙ disk-send _ s)

opened_keeps :
    (s : Session) (r r' : Receiving) (o : Disk × Created) (p : FilePath) (bytes : List ℕ)
    → look p o.0 ≡ some bytes
    → look p (report_saved r [] (opened s r' o)).disk ≡ some bytes
opened_keeps s r r' (disk, created path) p bytes h = rw (disk-report_saved r []) h
opened_keeps s r r' (disk, refused x) p bytes h = rw (disk-report_saved r []) h

-- Going on to the next file keeps every file that is there.
next_file_keeps :
    (env : Env) (s : Session) (r : Receiving) (p : FilePath) (bytes : List ℕ)
    → look p s.disk ≡ some bytes
    → look p (next_file env s r).disk ≡ some bytes
unfolding open_locked
next_file_keeps env s r p bytes h = elim (Bool-cases (leb (length r.names) (suc r.index))) [
  | inl last ↦ rw last (rw (disk-report_saved r) h)
  | inr more ↦
      let counted = record s { files = s.files + 1; bytes = s.bytes + r.written } in
      let r' = record r {
        is_open = false;
        saved = r.saved ++ (r.path ∷ []);
        index = suc r.index;
      } in
      rw more (
        opened_keeps counted r r'
          (create env.faults s.disk s.root (get_or r.names (suc r.index) [])) p bytes
          (create_keeps env.faults s.disk s.root (get_or r.names (suc r.index) []) _ p bytes refl
            h))
]

renamed_keeps :
    (env : Env) (s : Session) (r : Receiving) (o : Disk × Option IoError) (p : FilePath)
    (bytes : List ℕ)
    → o.1 ≡ none
    → look p o.0 ≡ some bytes
    → look p (renamed env s r o).disk ≡ some bytes
renamed_keeps env s r (disk, none) p bytes e h =
    next_file_keeps env (record s { disk = disk }) r p bytes h
renamed_keeps env s r (disk, some x) p bytes e h = cc

abbrev NoErrors : Env → Type 0
NoErrors env = (env.sync ≡ none) × (env.close_file ≡ none) × (env.move ≡ none)

finish_saves :
    (env : Env) (s : Session) (r : Receiving) (bytes : List ℕ)
    → s.rx ≡ some r
    → r.is_open ≡ true
    → look (part r.path) s.disk ≡ some bytes
    → NoErrors env
    → look r.path (finish_file env s).disk ≡ some bytes
unfolding finish_file
finish_saves env s r bytes e o h (sy, c, m) =
    let done = finish_done s.disk r.path bytes h in
    let moved = finish env.sync env.close_file env.move s.disk r.path in
    let ends : finish_rx env s (some r) ≡ renamed env s r moved = ground arith in
    let saved =
      renamed_keeps env s r moved r.path bytes (rw (sy, c, m) done.0) (rw (sy, c, m) done.1) in
    subst (λ t. look r.path t.disk ≡ some bytes) (sym (ap (finish_rx env s) e ∙ ends)) saved

if_send :
    (b : Bool) (m : Msg) (s : Session)
    → ((if b then send m s else s).rx ≡ s.rx) × ((if b then send m s else s).disk ≡ s.disk)
unfolding send
if_send b m s = ground arith

module _ (env : Env) (s : Session) (r : Receiving) (chunk bytes : List ℕ)
    (receiving : s.rx ≡ some r) (is_open : r.is_open ≡ true)
    (so_far : look (part r.path) s.disk ≡ some bytes) where
  -- The disk after the write.
  written_disk : look (part r.path) (append_file s.disk (part r.path) chunk) ≡ some (bytes ++ chunk)
  written_disk = rw (look-put (part r.path) (part r.path), eq_path_refl (part r.path), so_far)

  over_result :
      let t = send (fail r.id too_large) (abort_locked s (some r)) in
      (t.rx ≡ none)
      × (look (part r.path) t.disk ≡ (if s.stuck (part r.path) then some bytes else none))
      × ((p : FilePath) → eq_path (part r.path) p ≡ false → look p t.disk ≡ look p s.disk)
  unfolding abort_locked
  over_result =
      let t = abort_locked s (some r) in
      let (x, d) = if_send true (fail r.id too_large) t in
      (
        x,
        ap (look (part r.path)) d
            ∙ (look-abandon s.stuck s.disk r.path (part r.path)
                ∙ left (s.stuck (part r.path)) (eq_path_refl (part r.path))),
        λ p n.
            ap (look p) d
            ∙ (look-abandon s.stuck s.disk r.path p ∙ other (s.stuck (part r.path)) n),
      )
    where
      left :
          (b : Bool) {c : Bool}
          → c ≡ true
          → (if not b && c then none else look (part r.path) s.disk)
            ≡ (if b then some bytes else none)
      left true e = so_far
      left false e = rw e refl

      other :
          (b : Bool) {c : Bool} {x : Option (List ℕ)}
          → c ≡ false
          → (if not b && c then none else x) ≡ x
      other true e = refl
      other false e = rw e refl

  -- A chunk that makes the file longer than was declared is not written: the partial file is gone, or,
  -- where the system does not let it go, holds what it held; every other file is as it was, and
  -- nothing is being received any more.
  pub handle_chunk-over :
      size_of r < r.written + length chunk
      → ((handle_chunk env s chunk).rx ≡ none)
        × (look (part r.path) (handle_chunk env s chunk).disk
            ≡ (if s.stuck (part r.path) then some bytes else none))
        × ((p : FilePath)
            → eq_path (part r.path) p ≡ false
            → look p (handle_chunk env s chunk).disk ≡ look p s.disk)
  unfolding handle_chunk
  handle_chunk-over over =
      let gone : chunk_rx env s chunk (some r)
          ≡ send (fail r.id too_large) (abort_locked s (some r)) =
        ground arith in
      let gone' = ap (chunk_rx env s chunk) receiving ∙ gone in
      subst
        (λ t.
          (t.rx ≡ none)
          × (look (part r.path) t.disk ≡ (if s.stuck (part r.path) then some bytes else none))
          × ((p : FilePath) → eq_path (part r.path) p ≡ false → look p t.disk ≡ look p s.disk))
        (sym gone') over_result

  -- A chunk that completes the file, with no error from the disk: the finished file holds what was
  -- there and the chunk, whatever becomes of the next file of the batch.
  pub handle_chunk-completes :
      r.written + length chunk ≡ size_of r
      → env.write ≡ none
      → env.sync ≡ none
      → env.close_file ≡ none
      → env.move ≡ none
      → look r.path (handle_chunk env s chunk).disk ≡ some (bytes ++ chunk)
  unfolding handle_chunk
  handle_chunk-completes full w sy c m =
      let wrote : chunk_rx env s chunk (some r) ≡ written_chunk env s r chunk = ground arith in
      let r' = record r {
        written = r.written + length chunk;
        reported = if is_due env.now r.reported then some env.now else r.reported;
      } in
      let s' = record s { disk = append_file s.disk (part r.path) chunk; rx = some r' } in
      let due = is_due env.now r.reported in
      let note = progress_frame (record r { written = r.written + length chunk }) in
      let told = if due then send note s' else s' in
      let (x, d) = if_send due note s' in
      let ends : written_chunk env s r chunk ≡ finish_file env told = ground arith in
      subst (λ t. look r.path t.disk ≡ some (bytes ++ chunk))
        (sym (ap (chunk_rx env s chunk) receiving ∙ (wrote ∙ ends)))
        (finish_saves env told r' (bytes ++ chunk) x is_open (rw d written_disk) (sy, c, m))
