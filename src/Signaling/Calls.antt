-- ===== src/Signaling/Calls.antt =====
-- signaling/rtdb_transport.go: a transport over its streams, against the list of all its calls.
use freedesk.Prelude.{
  ◌≡◌, refl, ap, sym, ◌∙◌, Bool, true, false, List, [], ◌∷◌, ◌++◌, Option, none, some,
  if◌then◌else◌,
}
use freedesk.Signaling.{Role, Emission, gone, demux}
use freedesk.Signaling.Stream.{
  Transport, new_transport, emit, emit_all, StreamEvent, data_event, auth_revoked, cancelled,
  consume, Attempt, cut_off, refused, opened, reopen, start,
}

-- All calls of a transport's life, in their order.
unfoldable pub consumed : Role → List StreamEvent → List Emission × Bool
consumed r [] = ([], false)
consumed r (data_event ev ∷ evs) = let (es, c) = consumed r evs in (demux r ev ++ es, c)
consumed r (auth_revoked ∷ evs) = ([], false)
consumed r (cancelled ∷ evs) = ([], true)

unfoldable pub reopened : Role → List Attempt → List Emission
reopened r [] = []
reopened r (cut_off ∷ tries) = []
reopened r (refused ended denied ∷ tries) =
    let rest = reopened r tries in if ended then [] else if denied then gone ∷ [] else rest
reopened r (opened evs ended ∷ tries) =
    let (es, cancel) = consumed r evs in
    let rest = reopened r tries in es ++ (if cancel then gone ∷ [] else if ended then [] else rest)

unfoldable pub emissions : Role → Option (List StreamEvent × Bool) → List Attempt → List Emission
emissions r none tries = gone ∷ []
emissions r (some (evs, ended)) tries = reopened r (opened evs ended ∷ tries)

emit_all-append :
    (t : Transport) (es fs : List Emission) → emit_all t (es ++ fs) ≡ emit_all (emit_all t es) fs
unfolding emit_all
emit_all-append t [] fs = refl
emit_all-append t (e ∷ es) fs = emit_all-append (emit t e) es fs

consume-consumed :
    (r : Role) (t : Transport) (evs : List StreamEvent)
    → consume r t evs ≡ (emit_all t (consumed r evs).0, (consumed r evs).1)
unfolding consume consumed
consume-consumed r t [] = unfold emit_all in refl
consume-consumed r t (data_event ev ∷ evs) =
    consume-consumed r (emit_all t (demux r ev)) evs
    ∙ ap (λ x. (x, (consumed r evs).1)) (sym (emit_all-append t (demux r ev) (consumed r evs).0))
consume-consumed r t (auth_revoked ∷ evs) = unfold emit_all in refl
consume-consumed r t (cancelled ∷ evs) = unfold emit_all in refl

after_opened :
    (cancel ended : Bool) (t after : Transport) (es : List Emission)
    → after ≡ emit_all t es
    → (if cancel then emit t gone else if ended then t else after)
      ≡ emit_all t (if cancel then gone ∷ [] else if ended then [] else es)
after_opened true ended t after es h = unfold emit_all in refl
after_opened false true t after es h = unfold emit_all in refl
after_opened false false t after es h = h

reopen-reopened :
    (r : Role) (t : Transport) (tries : List Attempt)
    → reopen r t tries ≡ emit_all t (reopened r tries)
unfolding reopen reopened
reopen-reopened r t [] = unfold emit_all in refl
reopen-reopened r t (cut_off ∷ tries) = unfold emit_all in refl
reopen-reopened r t (refused true denied ∷ tries) = unfold emit_all in refl
reopen-reopened r t (refused false true ∷ tries) = unfold emit_all in refl
reopen-reopened r t (refused false false ∷ tries) = reopen-reopened r t tries
reopen-reopened r t (opened evs ended ∷ tries) =
    let (es, cancel) = consumed r evs in
    rw (consume-consumed r t evs, emit_all-append t es _)
      (after_opened cancel ended (emit_all t es) _ (reopened r tries)
        (reopen-reopened r (emit_all t es) tries))

pub start-emissions :
    (r : Role) (first : Option (List StreamEvent × Bool)) (tries : List Attempt)
    → start r first tries ≡ emit_all new_transport (emissions r first tries)
unfolding start emissions
start-emissions r none tries = unfold emit_all in refl
start-emissions r (some (evs, ended)) tries =
    reopen-reopened r new_transport (opened evs ended ∷ tries)
