-- ===== src/Transfer/Chunk/Invariant.antt =====
-- session.go: payload, the end of a file and the end of the session keep the invariant.
use freedesk.Prelude.{
  ℕ, zero, suc, ◌+◌, ◌≤◌, ◌<◌, ◌≡◌, refl, Bool, true, false, not, List, [], ◌∷◌, Option, none, some,
  arith, length, get_or, drop, if◌then◌else◌, leb, ltb, ◌==◌, Bool-cases, subst, inl, inr,
}
use freedesk.Transfer.Message.{Msg, fail, frame, done}
use freedesk.Transfer.Paths.{FilePath, Disk}
use freedesk.Transfer.Dest.{Created, created, refused, IoError, finish, part, abandon}
use freedesk.Transfer.State.{Receiving, Session}
use freedesk.Transfer.Receive.{Env, opened, open_locked, abort_locked, write_reason, create_reason}
use freedesk.Transfer.Receive.Invariant.{sum, Inv, Within, RxWithin, send-Inv}
use freedesk.Transfer.Receive.Answer.{drop_rx-Inv}
use freedesk.Transfer.Chunk.{
  size_of, append_file, send_opt, call_pasted, index_frame, report_saved, next_file, renamed,
  finish_rx, finish_file, is_due, written_chunk, write_chunk, chunk_rx, handle_chunk,
  abort_send_locked, close,
}

sum-drop :
    (ns : List ℕ) (i : ℕ) → i < length ns → sum (drop i ns) ≡ get_or ns i 0 + sum (drop (suc i) ns)
sum-drop [] i h = absurd (omega arith)
sum-drop (n ∷ ns) zero h = refl
sum-drop (n ∷ ns) (suc i) h = sum-drop ns i (omega arith)

length-drop_lt :
    {A : Type 0} (xs : List A) (i : ℕ)
    → i < length xs
    → length (drop i xs) ≡ suc (length (drop (suc i) xs))
length-drop_lt [] i h = absurd (omega arith)
length-drop_lt (x ∷ xs) zero h = refl
length-drop_lt (x ∷ xs) (suc i) h = length-drop_lt xs i (omega arith)

send_opt-Inv : (m : Option Msg) (s : Session) → Inv s → Inv (send_opt m s)
send_opt-Inv none s h = h
send_opt-Inv (some m) s h = send-Inv m s h

call_pasted-Inv : (ps : List FilePath) (s : Session) → Inv s → Inv (call_pasted ps s)
call_pasted-Inv [] s h = h
call_pasted-Inv (p ∷ ps) s h = ground arith

report_saved-Inv :
    (r : Receiving) (batch : List FilePath) (s : Session) (m : Option Msg)
    → Inv s
    → Inv (report_saved r batch (s, m))
report_saved-Inv r batch s m h =
    call_pasted-Inv batch _
      (send_opt-Inv m _ (send-Inv (index_frame (frame done r.id) r.index) s h))

-- The file that is open is complete, and counts for what was written to it.
module _ (s : Session) (r : Receiving) (h : Inv s) (e : s.rx ≡ some r) where
  rx-Within : Within s.files s.bytes r
  rx-Within = subst (RxWithin s.files s.bytes) e h.receiving

  counted-Inv :
      (disk : Disk)
      → Inv (record s { disk = disk; rx = none; files = s.files + 1; bytes = s.bytes + r.written })
  counted-Inv disk =
      let w = rx-Within in
      let names = length-drop_lt r.names r.index w.in_batch in
      let sizes = sum-drop r.sizes r.index (omega arith) in ground (arith, w, names, sizes)

  -- The batch goes on with the next file.
  next-Within :
      (saved : List FilePath) (path : FilePath)
      → suc r.index < length r.names
      → Within (s.files + 1) (s.bytes + r.written) (record r {
        is_open = true;
        path = path;
        written = 0;
        saved = saved;
        index = suc r.index;
      })
  next-Within saved path more =
      let w = rx-Within in
      let names = length-drop_lt r.names r.index w.in_batch in
      let sizes = sum-drop r.sizes r.index (omega arith) in
      record {
        open_file = refl;
        in_batch = more;
        paired = w.paired;
        bounded = omega arith;
        few = omega arith;
        small = omega arith;
      }

  alone : (s.closed ≡ false) × (s.asking ≡ none)
  alone = ground arith

  -- Any state that keeps what the session has accepted, and continues with a batch that fits.
  set_rx-Inv :
      (disk : Disk) (files bytes : ℕ) (r' : Receiving)
      → files ≤ 200
      → bytes ≤ 4294967296
      → Within files bytes r'
      → Inv (record s { disk = disk; rx = some r'; files = files; bytes = bytes })
  set_rx-Inv disk files bytes r' f b w = ground (arith, alone)

opened_next-Inv :
    (s : Session) (r : Receiving) (saved : List FilePath) (o : Disk × Created)
    → Inv s
    → s.rx ≡ some r
    → suc r.index < length r.names
    → Inv (
        report_saved r [] (
          opened
            (record s { files = s.files + 1; bytes = s.bytes + r.written })
            (record r { is_open = false; saved = saved; index = suc r.index })
            o))
opened_next-Inv s r saved (disk, created path) h e more =
    let w = next-Within s r h e saved path more in
    report_saved-Inv r [] _ none
      (set_rx-Inv s r h e disk (s.files + 1) (s.bytes + r.written) _ (omega arith) (omega arith) w)
opened_next-Inv s r saved (disk, refused x) h e more =
    report_saved-Inv r [] _ (some (fail r.id (create_reason x))) (counted-Inv s r h e disk)

next_file-Inv :
    (env : Env) (s : Session) (r : Receiving) → Inv s → s.rx ≡ some r → Inv (next_file env s r)
unfolding open_locked
next_file-Inv env s r h e = elim (Bool-cases (leb (length r.names) (suc r.index))) [
  | inl last ↦ rw last (report_saved-Inv r _ _ none (counted-Inv s r h e s.disk))
  | inr more ↦ rw more (opened_next-Inv s r _ _ h e (ground arith))
]

disk-Inv : (s : Session) (disk : Disk) → Inv s → Inv (record s { disk = disk })
disk-Inv s disk h = ground arith

renamed-Inv :
    (env : Env) (s : Session) (r : Receiving) (o : Disk × Option IoError)
    → Inv s
    → s.rx ≡ some r
    → Inv (renamed env s r o)
unfolding abort_locked
renamed-Inv env s r (disk, some x) h e =
    send-Inv (fail r.id (write_reason x)) _ (drop_rx-Inv s (abandon s.stuck disk r.path) h)
renamed-Inv env s r (disk, none) h e =
    next_file-Inv env (record s { disk = disk }) r (disk-Inv s disk h) e

if-Inv :
    (b : Bool) (s t : Session) → (b ≡ true → Inv s) → (b ≡ false → Inv t) → Inv (if b then s else t)
if-Inv true s t h k = h refl
if-Inv false s t h k = k refl

finish_rx-Inv :
    (env : Env) (s : Session) (o : Option Receiving) → Inv s → s.rx ≡ o → Inv (finish_rx env s o)
finish_rx-Inv env s none h e = h
finish_rx-Inv env s (some r) h e =
    if-Inv (not r.is_open) s _ (λ _. h)
      (λ _. renamed-Inv env s r (finish env.sync env.close_file env.move s.disk r.path) h e)

pub finish_file-Inv : (env : Env) (s : Session) → Inv s → Inv (finish_file env s)
unfolding finish_file
finish_file-Inv env s h = finish_rx-Inv env s s.rx h refl

written_chunk-Inv :
    (env : Env) (s : Session) (r : Receiving) (chunk : List ℕ)
    → Inv s
    → s.rx ≡ some r
    → r.written + length chunk ≤ size_of r
    → Inv (written_chunk env s r chunk)
written_chunk-Inv env s r chunk h e fits =
    let w = rx-Within s r h e in
    let more =
      set_rx-Inv s r h e (append_file s.disk (part r.path) chunk) s.files s.bytes
        (record r {
          written = r.written + length chunk;
          reported = if is_due env.now r.reported then some env.now else r.reported;
        })
        h.few_files h.few_bytes
        (record {
          open_file = w.open_file;
          in_batch = w.in_batch;
          paired = w.paired;
          bounded = fits;
          few = w.few;
          small = w.small;
        }) in
    let told = if-Inv (is_due env.now r.reported) _ _ (λ _. send-Inv _ _ more) (λ _. more) in
    if-Inv (r.written + length chunk == size_of r) _ _ (λ _. finish_file-Inv env _ told) (λ _. told)

write_chunk-Inv :
    (env : Env) (s : Session) (r : Receiving) (chunk : List ℕ) (x : Option IoError)
    → Inv s
    → s.rx ≡ some r
    → r.written + length chunk ≤ size_of r
    → Inv (write_chunk env s r chunk x)
unfolding abort_locked
write_chunk-Inv env s r chunk (some x) h e fits =
    send-Inv _ _ (drop_rx-Inv s (abandon s.stuck s.disk r.path) h)
write_chunk-Inv env s r chunk none h e fits = written_chunk-Inv env s r chunk h e fits

chunk_rx-Inv :
    (env : Env) (s : Session) (chunk : List ℕ) (o : Option Receiving)
    → Inv s
    → s.rx ≡ o
    → Inv (chunk_rx env s chunk o)
unfolding abort_locked
chunk_rx-Inv env s chunk none h e = h
chunk_rx-Inv env s chunk (some r) h e =
    if-Inv (not r.is_open) s _ (λ _. h)
      (λ _.
        if-Inv (ltb (size_of r) (r.written + length chunk)) _ _
          (λ _. send-Inv _ _ (drop_rx-Inv s (abandon s.stuck s.disk r.path) h))
          (λ l. write_chunk-Inv env s r chunk env.write h e (ground arith)))

pub handle_chunk-Inv :
    (env : Env) (s : Session) (chunk : List ℕ) → Inv s → Inv (handle_chunk env s chunk)
unfolding handle_chunk
handle_chunk-Inv env s chunk h = chunk_rx-Inv env s chunk s.rx h refl

pub abort_send-Inv : (s : Session) → Inv s → Inv (abort_send_locked s)
unfolding abort_send_locked
abort_send-Inv s h = ground arith

-- Closing gives up what is being received and sent, and keeps the invariant.
pub close-Inv : (s : Session) → Inv s → Inv (close s)
unfolding close
close-Inv s h = ground arith
