-- ===== src/Transfer/Receive/Asking.antt =====
-- session.go: asking the operator keeps the invariant.
use freedesk.Prelude.{
  ℕ, suc, ◌+◌, ◌≤◌, ◌≡◌, refl, true, false, List, [], ◌∷◌, Option, none, some, arith, length, pos,
  magnitude, inl, inr, Text, +ℤ-pos, Bool-cases, ap,
}
use freedesk.Transfer.Message.{
  Msg, FileMeta, offer, validate, total_size, max_session_files, max_session_bytes, max_batch_bytes,
  refuse, bad_name, too_large, no_space, busy,
}
use freedesk.Transfer.Message.Valid.{sum_sizes, validate-offer}
use freedesk.Transfer.Space.{room}
use freedesk.Transfer.State.{Session, send}
use freedesk.Transfer.Receive.{
  Env, file_sizes, add_name, safe_names, conclude, within_session_limits, ask_named, is_busy,
  offered,
}
use freedesk.Transfer.Receive.Invariant.{sum, Inv, Fits, send-Inv}

sum-file_sizes : (fs : List FileMeta) → sum (file_sizes fs) ≡ sum_sizes fs
sum-file_sizes [] = refl
sum-file_sizes (f ∷ fs) = ap (◌+◌ (magnitude f.size)) (sum-file_sizes fs)

length-add_name :
    (o : Option Text) (rest : Option (List Text)) (n : ℕ)
    → ((ns : List Text) → rest ≡ some ns → length ns ≡ n)
    → (ns : List Text) → add_name o rest ≡ some ns
    → length ns ≡ suc n
length-add_name none rest n h ns e = cc
length-add_name (some a) none n h ns e = cc
length-add_name (some a) (some ms) n h ns e = ground (arith, h ms refl)

length-safe_names :
    (fs : List FileMeta) (ns : List Text) → safe_names fs ≡ some ns → length ns ≡ length fs
unfolding safe_names
length-safe_names [] ns e = ground arith
length-safe_names (f ∷ fs) ns e =
    length-add_name _ (safe_names fs) (length fs) (length-safe_names fs) ns e

pub conclude-Inv : (m : Msg) (s : Session) → Inv s → Inv (conclude m s)
unfolding send
conclude-Inv m s h = ground arith

limits_mean :
    (s : Session) (count size : ℕ)
    → s.bytes ≤ max_session_bytes
    → size ≤ max_batch_bytes
    → within_session_limits s count (pos size) ≡ true
    → (s.files + count ≤ max_session_files) × (s.bytes + size ≤ max_session_bytes)
unfolding within_session_limits
limits_mean s count size b l h = ground (arith, +ℤ-pos s.bytes size (omega arith))

asks-Inv :
    (m : Msg) (names : List Text) (s : Session)
    → Inv s
    → s.rx ≡ none
    → Fits s.files s.bytes (record { msg = m; names = names })
    → Inv (record s { pending = true; asking = some (record { msg = m; names = names }) })
asks-Inv m names s h r f = ground arith

claimed_conclude-Inv :
    (m : Msg) (s : Session) → Inv s → Inv (conclude m (record s { pending = true }))
unfolding send
claimed_conclude-Inv m s h = ground arith

idle-rx : (s : Session) → is_busy s ≡ false → s.rx ≡ none
unfolding is_busy
idle-rx s h = ground arith

ask_named-Inv :
    (env : Env) (m : Msg) (s : Session) (names : Option (List Text))
    → validate m ≡ true
    → m.t ≡ offer
    → Inv s
    → s.rx ≡ none
    → ((ns : List Text) → names ≡ some ns → length ns ≡ length m.files)
    → Inv (ask_named env m (record s { pending = true }) names)
ask_named-Inv env m s none v t h r l = claimed_conclude-Inv (refuse m.id bad_name) s h
ask_named-Inv env m s (some ns) v t h r l =
    let (_, some_file, _, _, exact, total) = validate-offer m v t in
    let claimed = record s { pending = true } in
    elim (Bool-cases (within_session_limits claimed (length m.files) (total_size m.files))) [
      | inr over ↦ rw over (claimed_conclude-Inv (refuse m.id too_large) s h)
      | inl fits ↦ elim (Bool-cases (room env.exists env.free s.root (total_size m.files))) [
        | inr full ↦ rw (fits, full) (claimed_conclude-Inv (refuse m.id no_space) s h)
        | inl enough ↦
            let (few, small) =
              limits_mean claimed (length m.files) (sum_sizes m.files) h.few_bytes total
                (rw exact at fits) in
            rw (fits, enough)
              (asks-Inv m ns s h r (record {
                named = l ns refl;
                nonempty = some_file;
                few = few;
                small = rw (sum-file_sizes m.files) small;
              }))
      ]
    ]

-- An offer that has passed `validate` keeps the invariant, whether it is refused or asked about.
pub offered-Inv :
    (env : Env) (s : Session) (m : Msg)
    → validate m ≡ true
    → m.t ≡ offer
    → Inv s
    → Inv (offered env s m)
unfolding offered
offered-Inv env s m v t h = elim (Bool-cases (is_busy s)) [
  | inl b ↦ rw b (send-Inv (refuse m.id busy) s h)
  | inr i ↦
      rw i
        (ask_named-Inv env m s (safe_names m.files) v t h (idle-rx s i) (length-safe_names m.files))
]
