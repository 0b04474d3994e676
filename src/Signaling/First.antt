-- ===== src/Signaling/First.antt =====
-- signaling/rtdb_transport.go: what is delivered once, over all streams of a session.
use mathlib.Core.List.{append-nil}
use freedesk.Prelude.{
  ◌≡◌, refl, ap, sym, ◌∙◌, Bool, ◌||◌, List, [], ◌∷◌, ◌++◌, Option, none, some, Text, is_empty,
  if◌then◌else◌, arith, Bool-cases, inl, inr, All, any,
}
use freedesk.Signaling.{
  Role, Description, IceCandidate, Snapshot, Candidates, Emission, snap, stat, desc, cand, gone,
  is_complete,
}
use freedesk.Signaling.Stream.{
  Transport, new_transport, once, emit_candidate, emit, emit_all, StreamEvent, Attempt, start,
}
use freedesk.Signaling.Calls.{emissions, start-emissions}
use freedesk.Signaling.Told.{any_gone, heard, Sourced, is_removal, emissions-Tell}
use freedesk.Signaling.Keys.{find, Unique, Noted, find-emit_candidate, emit_candidate-Noted}

-- The candidates that come with a text, the complete descriptions, and the snapshots.
unfoldable pub offered_cands : List Emission → Candidates
offered_cands [] = []
offered_cands (cand key c ∷ es) =
    let rest = offered_cands es in if is_empty c.candidate then rest else (key, c) ∷ rest
offered_cands (_ ∷ es) = offered_cands es

unfoldable pub first_desc : List Emission → Option Description
first_desc [] = none
first_desc (desc d ∷ es) = let rest = first_desc es in if is_complete d then some d else rest
first_desc (_ ∷ es) = first_desc es

unfoldable pub first_snap : List Emission → Option Snapshot
first_snap [] = none
first_snap (snap s ∷ es) = some s
first_snap (_ ∷ es) = first_snap es

abbrev or_else {ℓ} : {A : Type ℓ} → Option A → Option A → Option A
or_else none b = b
or_else (some a) b = some a

or_none {ℓ} : {A : Type ℓ} (o : Option A) → o ≡ or_else o none
or_none none = refl
or_none (some a) = refl

find-emit_all :
    (t : Transport) (es : List Emission)
    → Noted t
    → Unique t.remote_cand
    → ((k : Text) → find k (emit_all t es).remote_cand ≡ find k (t.remote_cand ++ offered_cands es))
      × Unique (emit_all t es).remote_cand
unfolding emit_all emit offered_cands
find-emit_all t [] n u = (λ k. ap (find k) (sym (append-nil t.remote_cand)), u)
find-emit_all t (cand j c ∷ es) n u =
    let (n', u') = emit_candidate-Noted t j c n u in
    let (same, u'') = find-emit_all (emit_candidate t j c) es n' u' in
    (λ k. same k ∙ find-emit_candidate t j k c (offered_cands es) n, u'')
find-emit_all t (snap s ∷ es) n u = find-emit_all (emit t (snap s)) es n u
find-emit_all t (stat s ∷ es) n u = find-emit_all (emit t (stat s)) es n u
find-emit_all t (desc d ∷ es) n u = find-emit_all (emit t (desc d)) es n u
find-emit_all t (gone ∷ es) n u = find-emit_all (emit t gone) es n u

-- A candidate leaves the other channels alone.
emit_candidate_rest :
    (t : Transport) (j : Text) (c : IceCandidate)
    → let t' = emit_candidate t j c in
      (t'.remote_desc ≡ t.remote_desc) × (t'.snapshot ≡ t.snapshot) × (t'.is_gone ≡ t.is_gone)
unfolding emit_candidate
emit_candidate_rest t j c = ground arith

once-or_else {ℓ} :
    {A : Type ℓ} (o : Option A) (a : A) (p : Option A) → or_else (once o a) p ≡ or_else o (some a)
once-or_else none a p = refl
once-or_else (some b) a p = refl

desc-emit_all :
    (t : Transport) (es : List Emission)
    → (emit_all t es).remote_desc ≡ or_else t.remote_desc (first_desc es)
unfolding emit_all emit first_desc
desc-emit_all t [] = or_none t.remote_desc
desc-emit_all t (desc d ∷ es) =
    desc-emit_all (emit t (desc d)) es ∙ elim (Bool-cases (is_complete d)) [
      | inl e ↦ rw e (once-or_else t.remote_desc d (first_desc es))
      | inr e ↦ rw e refl
    ]
desc-emit_all t (cand j c ∷ es) =
    desc-emit_all (emit_candidate t j c) es
    ∙ ap (λ o. or_else o (first_desc es)) (emit_candidate_rest t j c).0
desc-emit_all t (snap s ∷ es) = desc-emit_all (emit t (snap s)) es
desc-emit_all t (stat s ∷ es) = desc-emit_all (emit t (stat s)) es
desc-emit_all t (gone ∷ es) = desc-emit_all (emit t gone) es

snap-emit_all :
    (t : Transport) (es : List Emission)
    → (emit_all t es).snapshot ≡ or_else t.snapshot (first_snap es)
unfolding emit_all emit first_snap
snap-emit_all t [] = or_none t.snapshot
snap-emit_all t (snap s ∷ es) =
    snap-emit_all (emit t (snap s)) es ∙ once-or_else t.snapshot s (first_snap es)
snap-emit_all t (cand j c ∷ es) =
    snap-emit_all (emit_candidate t j c) es
    ∙ ap (λ o. or_else o (first_snap es)) (emit_candidate_rest t j c).1
snap-emit_all t (desc d ∷ es) = snap-emit_all (emit t (desc d)) es
snap-emit_all t (stat s ∷ es) = snap-emit_all (emit t (stat s)) es
snap-emit_all t (gone ∷ es) = snap-emit_all (emit t gone) es

gone-emit_all :
    (t : Transport) (es : List Emission) → (emit_all t es).is_gone ≡ (t.is_gone || any_gone es)
unfolding emit_all emit any_gone
gone-emit_all t [] = ground arith
gone-emit_all t (gone ∷ es) = gone-emit_all (emit t gone) es ∙ ground arith
gone-emit_all t (cand j c ∷ es) =
    gone-emit_all (emit_candidate t j c) es
    ∙ ap (λ b. b || any_gone es) (emit_candidate_rest t j c).2
gone-emit_all t (snap s ∷ es) = gone-emit_all (emit t (snap s)) es
gone-emit_all t (desc d ∷ es) = gone-emit_all (emit t (desc d)) es
gone-emit_all t (stat s ∷ es) = gone-emit_all (emit t (stat s)) es

-- A transport over all streams of its session, cut off, cancelled and opened again in any way, which
-- send the node again each time. All calls that the events come to say what an event told: a
-- description or candidate stands where the other side writes its own, at that path, in the whole
-- node, or in a child of a patch. Of them the transport hands out one candidate of each key, the
-- first that came with a text, the first complete description, and the first snapshot; and it is
-- gone exactly if an event removed the node, or it could no longer be read.
pub start_first :
    (r : Role) (first : Option (List StreamEvent × Bool)) (tries : List Attempt)
    → let t = start r first tries in
      let es = emissions r first tries in
      let (evs, lost) = heard first tries in
      All (Sourced r evs) es
      × ((k : Text) → find k t.remote_cand ≡ find k (offered_cands es))
      × Unique t.remote_cand
      × (t.remote_desc ≡ first_desc es)
      × (t.snapshot ≡ first_snap es)
      × (t.is_gone ≡ (any is_removal evs || lost))
unfolding new_transport find
start_first r first tries =
    let es = emissions r first tries in
    let start_noted : Noted new_transport = λ k. refl in
    let (same, unique) = find-emit_all new_transport es start_noted tt in
    let (told, removed) = emissions-Tell r first tries in
    rw (start-emissions r first tries) (
      told,
      same,
      unique,
      desc-emit_all new_transport es,
      snap-emit_all new_transport es,
      gone-emit_all new_transport es ∙ removed,
    )
