-- ===== src/Signaling/Told.antt =====
-- signaling/rtdb_transport.go: what the calls of demux and route say, described by what the other side has
-- written and where.
use mathlib.Core.List.{append-nil}
use freedesk.Prelude.{
  ◌≡◌, refl, ap, sym, ◌∙◌, ◌⊎◌, inl, inr, Bool, true, false, ◌&&◌, ◌||◌, List, [], ◌∷◌, ◌++◌,
  Option, none, some, Text, text, eq_text, eq_text_iff, is_empty, any, ◌==◌, All, All-append,
  if◌then◌else◌, arith, Bool-cases, subst,
}
use freedesk.Signaling.{
  Role, host, viewer, Description, IceCandidate, Candidates, SessionNode, Value, Event, Emission,
  snap, stat, desc, cand, gone, strip_prefix, cands, descs, stats, pick_remote,
  pick_remote_candidates, remote_cand_key, remote_desc_key, route_node, route_description,
  route_candidates, route_candidate, is_slash, is_complete, route_status, route, child_path,
  route_all, route_children, demux,
}
use freedesk.Signaling.Stream.{
  StreamEvent, data_event, auth_revoked, cancelled, Attempt, cut_off, refused, opened,
}
use freedesk.Signaling.Calls.{consumed, reopened, emissions}

unfoldable pub any_gone : List Emission → Bool
any_gone [] = false
any_gone (gone ∷ es) = true
any_gone (_ ∷ es) = any_gone es

pub data Somewhere {A : Type 0} (P : A → Type 0) : List A → Type 0 where
  here : {a : A} {as_ : List A} → P a → Somewhere P (a ∷ as_)
  later : {a : A} {as_ : List A} → Somewhere P as_ → Somewhere P (a ∷ as_)

abbrev pub their_path : Role → Text
their_path host = text "/answer"
their_path viewer = text "/offer"

abbrev pub their_candidates_path : Role → Text
their_candidates_path host = text "/viewerCandidates"
their_candidates_path viewer = text "/hostCandidates"

abbrev pub TheirDescription : Role → SessionNode → Description → Type 0
TheirDescription host n d = n.answer ≡ some d
TheirDescription viewer n d = n.offer ≡ some d

abbrev pub TheirCandidate : Role → SessionNode → Text → IceCandidate → Type 0
TheirCandidate host n k c = Somewhere (λ p. p ≡ (k, c)) n.viewer_candidates
TheirCandidate viewer n k c = Somewhere (λ p. p ≡ (k, c)) n.host_candidates

-- What is written at a path is the whole node, or the one thing that stands there.
abbrev pub Says : Role → Text → Value → Emission → Type 0
Says r path v (desc d) =
    ((n : SessionNode) × (path ≡ text "/") × (v.as_node ≡ some n) × TheirDescription r n d)
    ⊎ ((path ≡ their_path r) × (v.as_description ≡ some d))
Says r path v (cand k c) =
    ((n : SessionNode) × (path ≡ text "/") × (v.as_node ≡ some n) × TheirCandidate r n k c)
    ⊎ (((cs : Candidates) × (path ≡ their_candidates_path r)
          × (v.as_candidates ≡ some cs)
          × Somewhere (λ p. p ≡ (k, c)) cs)
        ⊎ ((path ≡ their_candidates_path r ++ (b'/' ∷ k)) × (v.as_candidate ≡ some c)))
Says r path v (snap s) =
    (n : SessionNode) × (path ≡ text "/")
    × (v.as_node ≡ some n)
    × (s.viewer_uid ≡ n.viewer_uid)
    × (s.owner_uid ≡ n.owner_uid)
    × (s.status ≡ n.status)
Says r path v (stat s) =
    ((n : SessionNode) × (path ≡ text "/") × (v.as_node ≡ some n) × (n.status ≡ s))
    ⊎ ((path ≡ text "/status") × (v.as_status ≡ some s))
Says r path v gone = false ≡ true

-- The node is removed.
abbrev pub is_removal : Event → Bool
is_removal ev = ev.blank && eq_text ev.path (text "/")

-- An event with data says it of its own path, or is a patch of the root that says it of a child.
abbrev pub Told : Role → Emission → Event → Type 0
Told r e ev =
    (ev.blank ≡ false)
    × (Says r ev.path ev.value e
        ⊎ ((vs : List (Text × Value)) × (ev.patch ≡ true)
            × (ev.path ≡ text "/")
            × (ev.children ≡ some vs)
            × Somewhere (λ p. Says r (child_path p.0) p.1 e) vs))

-- The events of a transport's life, up to its end, and whether that is because the node can no longer
-- be read.
abbrev pub heard_in : List StreamEvent → List Event × Bool
heard_in [] = ([], false)
heard_in (data_event ev ∷ evs) = (ev ∷ (heard_in evs).0, (heard_in evs).1)
heard_in (auth_revoked ∷ evs) = ([], false)
heard_in (cancelled ∷ evs) = ([], true)

abbrev pub heard_over : List Attempt → List Event × Bool
heard_over [] = ([], false)
heard_over (cut_off ∷ tries) = ([], false)
heard_over (refused ended denied ∷ tries) =
    if ended then ([], false) else if denied then ([], true) else heard_over tries
heard_over (opened evs ended ∷ tries) =
    if (heard_in evs).1
    then ((heard_in evs).0, true)
    else if ended
    then ((heard_in evs).0, false)
    else ((heard_in evs).0 ++ (heard_over tries).0, (heard_over tries).1)

abbrev pub heard : Option (List StreamEvent × Bool) → List Attempt → List Event × Bool
heard none tries = ([], true)
heard (some (evs, ended)) tries = heard_over (opened evs ended ∷ tries)

abbrev pub Sourced : Role → List Event → Emission → Type 0
Sourced r evs gone = Unit
Sourced r evs (snap s) = Somewhere (Told r (snap s)) evs
Sourced r evs (stat s) = Somewhere (Told r (stat s)) evs
Sourced r evs (desc d) = Somewhere (Told r (desc d)) evs
Sourced r evs (cand k c) = Somewhere (Told r (cand k c)) evs

All-map :
    {A : Type 0} {P Q : A → Type 0} (as_ : List A) → ((a : A) → P a → Q a) → All P as_ → All Q as_
All-map [] f h = tt
All-map (a ∷ as_) f h = (f a h.0, All-map as_ f h.1)

cands-All :
    (Q : Emission → Type 0) (cs : Candidates)
    → ((k : Text) (c : IceCandidate) → Somewhere (λ p. p ≡ (k, c)) cs → Q (cand k c))
    → All Q (cands cs)
cands-All Q [] h = tt
cands-All Q ((k, c) ∷ cs) h = (h k c (here refl), cands-All Q cs (λ j d m. h j d (later m)))

descs-All :
    (Q : Emission → Type 0) (o : Option Description)
    → ((d : Description) → o ≡ some d → Q (desc d))
    → All Q (descs o)
descs-All Q none h = tt
descs-All Q (some d) h = (h d refl, tt)

stats-All : (Q : Emission → Type 0) (s : Text) → Q (stat s) → All Q (stats s)
stats-All Q [] h = tt
stats-All Q (c ∷ s) h = (h, tt)

strip_prefix_lem : (p s k : Text) → strip_prefix p s ≡ some k → s ≡ p ++ k
unfolding strip_prefix
strip_prefix_lem [] s k h = ground (arith, h)
strip_prefix_lem (c ∷ p) [] k h = cc
strip_prefix_lem (c ∷ p) (d ∷ s) k h = elim (Bool-cases (c == d)) [
  | inl e ↦
      let same : c ≡ d = ground arith in
      rw same (ap (λ t. d ∷ t) (strip_prefix_lem p s k (rw e at h)))
  | inr e ↦ absurd (ground arith)
]

node-Says :
    (r : Role) (path : Text) (v : Value) (o : Option SessionNode)
    → path ≡ text "/"
    → v.as_node ≡ o
    → All (Says r path v) (route_node r o)
node-Says r path v none p e = tt
node-Says r path v (some n) p e =
    All-append (Says r path v) _ _ (seen (is_empty n.viewer_uid && is_empty n.owner_uid)) (
      All-append (Says r path v) (stats n.status) _
        (stats-All (Says r path v) n.status (inl (n, p, e, refl)))
        (All-append (Says r path v) (descs (pick_remote r n)) _
          (descs-All (Says r path v) (pick_remote r n) (λ d h. inl (n, p, e, theirs r d h)))
          (cands-All (Says r path v) (pick_remote_candidates r n)
            (λ k c m. inl (n, p, e, their_cand r k c m)))))
  where
    seen :
        (b : Bool)
        → All (Says r path v) (
            if b
            then []
            else snap
                (record { viewer_uid = n.viewer_uid; owner_uid = n.owner_uid; status = n.status })
              ∷ [])
    seen true = tt
    seen false = ((n, p, e, refl, refl, refl), tt)

    theirs : (r : Role) (d : Description) → pick_remote r n ≡ some d → TheirDescription r n d
    theirs host d h = h
    theirs viewer d h = h

    their_cand :
        (r : Role) (k : Text) (c : IceCandidate)
        → Somewhere (λ p. p ≡ (k, c)) (pick_remote_candidates r n)
        → TheirCandidate r n k c
    their_cand host k c m = m
    their_cand viewer k c m = m

status-Says :
    (r : Role) (path : Text) (v : Value) (o : Option Text)
    → path ≡ text "/status"
    → v.as_status ≡ o
    → All (Says r path v) (route_status o)
status-Says r path v none p e = tt
status-Says r path v (some s) p e = stats-All (Says r path v) s (inr (p, e))

description-Says :
    (r : Role) (path : Text) (v : Value) (o : Option Description)
    → path ≡ their_path r
    → v.as_description ≡ o
    → All (Says r path v) (route_description o)
description-Says r path v none p e = tt
description-Says r path v (some d) p e = elim (Bool-cases (is_complete d)) [
  | inl y ↦ rw y (inr (p, e), tt)
  | inr n ↦ rw n tt
]

candidates-Says :
    (r : Role) (path : Text) (v : Value) (o : Option Candidates)
    → path ≡ their_candidates_path r
    → v.as_candidates ≡ o
    → All (Says r path v) (route_candidates o)
candidates-Says r path v none p e = tt
candidates-Says r path v (some cs) p e =
    cands-All (Says r path v) cs (λ k c m. inr (inl (cs, p, e, m)))

candidate-Says :
    (r : Role) (path : Text) (v : Value) (key : Option Text) (o : Option IceCandidate)
    → ((k : Text) → key ≡ some k → path ≡ their_candidates_path r ++ (b'/' ∷ k))
    → v.as_candidate ≡ o
    → All (Says r path v) (route_candidate key o)
candidate-Says r path v none o p e = tt
candidate-Says r path v (some k) none p e = elim (Bool-cases (any is_slash k)) [
  | inl y ↦ rw y tt
  | inr n ↦ rw n tt
]
candidate-Says r path v (some k) (some c) p e = elim (Bool-cases (any is_slash k)) [
  | inl y ↦ rw y tt
  | inr n ↦ rw n (inr (inr (p k refl, e)), tt)
]

their_path_lem : (r : Role) → b'/' ∷ remote_desc_key r ≡ their_path r
their_path_lem host = refl
their_path_lem viewer = refl

their_candidates_path_lem : (r : Role) → b'/' ∷ remote_cand_key r ≡ their_candidates_path r
their_candidates_path_lem host = refl
their_candidates_path_lem viewer = refl

below :
    (r : Role) (k : Text)
    → ((b'/' ∷ remote_cand_key r) ++ text "/") ++ k ≡ their_candidates_path r ++ (b'/' ∷ k)
below host k = refl
below viewer k = refl

pub route-Says : (r : Role) (path : Text) (v : Value) → All (Says r path v) (route r path v)
unfolding route
route-Says r path v = elim (Bool-cases (eq_text path (text "/"))) [
  | inl e ↦ rw e (node-Says r path v v.as_node ((eq_text_iff path (text "/")).0 e) refl)
  | inr a ↦ elim (Bool-cases (eq_text path (text "/status"))) [
    | inl e ↦
        rw (a, e) (status-Says r path v v.as_status ((eq_text_iff path (text "/status")).0 e) refl)
    | inr b ↦ elim (Bool-cases (eq_text path (b'/' ∷ remote_desc_key r))) [
      | inl e ↦
          rw (a, b, e)
            (description-Says r path v v.as_description
              ((eq_text_iff path (b'/' ∷ remote_desc_key r)).0 e ∙ their_path_lem r) refl)
      | inr c ↦ elim (Bool-cases (eq_text path (b'/' ∷ remote_cand_key r))) [
        | inl e ↦
            rw (a, b, c, e)
              (candidates-Says r path v v.as_candidates
                ((eq_text_iff path (b'/' ∷ remote_cand_key r)).0 e ∙ their_candidates_path_lem r)
                refl)
        | inr d ↦
            rw (a, b, c, d)
              (candidate-Says r path v (strip_prefix ((b'/' ∷ remote_cand_key r) ++ text "/") path)
                v.as_candidate
                (λ k h.
                  strip_prefix_lem ((b'/' ∷ remote_cand_key r) ++ text "/") path k h ∙ below r k)
                refl)
      ]
    ]
  ]
]

no_gone :
    (r : Role) (path : Text) (v : Value) (es : List Emission)
    → All (Says r path v) es
    → any_gone es ≡ false
unfolding any_gone
no_gone r path v [] h = refl
no_gone r path v (gone ∷ es) h = absurd (cc)
no_gone r path v (snap s ∷ es) h = no_gone r path v es h.1
no_gone r path v (stat s ∷ es) h = no_gone r path v es h.1
no_gone r path v (desc d ∷ es) h = no_gone r path v es h.1
no_gone r path v (cand k c ∷ es) h = no_gone r path v es h.1

any_gone-append : (es fs : List Emission) → any_gone (es ++ fs) ≡ (any_gone es || any_gone fs)
unfolding any_gone
any_gone-append [] fs = refl
any_gone-append (gone ∷ es) fs = refl
any_gone-append (snap s ∷ es) fs = any_gone-append es fs
any_gone-append (stat s ∷ es) fs = any_gone-append es fs
any_gone-append (desc d ∷ es) fs = any_gone-append es fs
any_gone-append (cand k c ∷ es) fs = any_gone-append es fs

abbrev Child : Role → Emission → Text × Value → Type 0
Child r e p = Says r (child_path p.0) p.1 e

route_all-Child :
    (r : Role) (vs : List (Text × Value))
    → All (λ e. Somewhere (Child r e) vs) (route_all r vs) × (any_gone (route_all r vs) ≡ false)
unfolding route_all
route_all-Child r [] = (tt, unfold any_gone in refl)
route_all-Child r ((key, v) ∷ vs) =
    let first = route-Says r (child_path key) v in
    let (rest, none_gone) = route_all-Child r vs in
    (
      All-append _ (route r (child_path key) v) _ (All-map _ (λ e h. here h) first)
          (All-map _ (λ e h. later h) rest),
      any_gone-append (route r (child_path key) v) (route_all r vs)
          ∙ rw (no_gone r (child_path key) v _ first, none_gone) refl,
    )

abbrev Tells : Role → Event → List Emission → Type 0
Tells r ev es = All (λ e. Sourced r (ev ∷ []) e) es × (any_gone es ≡ is_removal ev)

Told-Sourced : (r : Role) (ev : Event) (e : Emission) → Told r e ev → Sourced r (ev ∷ []) e
Told-Sourced r ev gone h = tt
Told-Sourced r ev (snap s) h = here h
Told-Sourced r ev (stat s) h = here h
Told-Sourced r ev (desc d) h = here h
Told-Sourced r ev (cand k c) h = here h

children-Tells :
    (r : Role) (ev : Event) (o : Option (List (Text × Value)))
    → ev.blank ≡ false
    → ev.patch ≡ true
    → ev.path ≡ text "/"
    → ev.children ≡ o
    → Tells r ev (route_children r o)
children-Tells r ev none b p q e = (tt, unfold any_gone in rw b refl)
children-Tells r ev (some vs) b p q e =
    let (told, none_gone) = route_all-Child r vs in
    (All-map _ (λ x h. Told-Sourced r ev x (b, inr (vs, p, q, e, h))) told, rw b none_gone)

demux-Tells : (r : Role) (ev : Event) → Tells r ev (demux r ev)
unfolding demux
demux-Tells r ev = elim (Bool-cases ev.blank) [
  | inl b ↦ elim (Bool-cases (eq_text ev.path (text "/"))) [
    | inl e ↦ rw (b, e) ((tt, tt), unfold any_gone in refl)
    | inr n ↦ rw (b, n) (tt, unfold any_gone in refl)
  ]
  | inr b ↦ elim (Bool-cases (ev.patch && eq_text ev.path (text "/"))) [
    | inl e ↦
        let patched : demux r ev ≡ route_children r ev.children = rw (b, e) refl in
        subst (Tells r ev) (sym patched) (
          children-Tells r ev ev.children b (ground arith)
            ((eq_text_iff ev.path (text "/")).0 (ground arith)) refl)
    | inr n ↦
        let put : demux r ev ≡ route r ev.path ev.value = rw (b, n) refl in
        let says = route-Says r ev.path ev.value in
        let present : false ≡ is_removal ev = rw b refl in
        subst (Tells r ev) (sym put) (
          All-map _ (λ x h. Told-Sourced r ev x (b, inl h)) says,
          no_gone r ev.path ev.value _ says ∙ present,
        )
  ]
]

Somewhere-append :
    {A : Type 0} {P : A → Type 0} (xs ys : List A) → Somewhere P xs → Somewhere P (xs ++ ys)
Somewhere-append [] ys m = elim m [ ]
Somewhere-append (x ∷ xs) ys (here p) = here p
Somewhere-append (x ∷ xs) ys (later m) = later (Somewhere-append xs ys m)

Somewhere-before :
    {A : Type 0} {P : A → Type 0} (xs ys : List A) → Somewhere P ys → Somewhere P (xs ++ ys)
Somewhere-before [] ys m = m
Somewhere-before (x ∷ xs) ys m = later (Somewhere-before xs ys m)

Sourced-append :
    (r : Role) (xs ys : List Event) (e : Emission) → Sourced r xs e → Sourced r (xs ++ ys) e
Sourced-append r xs ys gone h = tt
Sourced-append r xs ys (snap s) h = Somewhere-append xs ys h
Sourced-append r xs ys (stat s) h = Somewhere-append xs ys h
Sourced-append r xs ys (desc d) h = Somewhere-append xs ys h
Sourced-append r xs ys (cand k c) h = Somewhere-append xs ys h

Sourced-before :
    (r : Role) (xs ys : List Event) (e : Emission) → Sourced r ys e → Sourced r (xs ++ ys) e
Sourced-before r xs ys gone h = tt
Sourced-before r xs ys (snap s) h = Somewhere-before xs ys h
Sourced-before r xs ys (stat s) h = Somewhere-before xs ys h
Sourced-before r xs ys (desc d) h = Somewhere-before xs ys h
Sourced-before r xs ys (cand k c) h = Somewhere-before xs ys h

-- All that is called says what the events told, and `gone` stands for the removals.
abbrev pub Tell : Role → List Event → Bool → List Emission → Type 0
Tell r evs lost es = All (Sourced r evs) es × (any_gone es ≡ (any is_removal evs || lost))

or_assoc : (a b c : Bool) → (a || (b || c)) ≡ ((a || b) || c)
or_assoc true b c = refl
or_assoc false b c = refl

any-append_removals :
    (xs ys : List Event) → any is_removal (xs ++ ys) ≡ (any is_removal xs || any is_removal ys)
any-append_removals [] ys = refl
any-append_removals (x ∷ xs) ys = ground (arith, any-append_removals xs ys)

Tell-append :
    (r : Role) (xs ys : List Event) (lost : Bool) (es fs : List Emission)
    → Tell r xs false es
    → Tell r ys lost fs
    → Tell r (xs ++ ys) lost (es ++ fs)
Tell-append r xs ys lost es fs h k = (
  All-append (Sourced r (xs ++ ys)) es fs (All-map es (Sourced-append r xs ys) h.0)
      (All-map fs (Sourced-before r xs ys) k.0),
  any_gone-append es fs ∙ ground (arith, h.1, k.1, any-append_removals xs ys),
)

one-Tell : (r : Role) (ev : Event) → Tell r (ev ∷ []) false (demux r ev)
one-Tell r ev = let h = demux-Tells r ev in (h.0, h.1 ∙ ground arith)

consumed-Tell :
    (r : Role) (evs : List StreamEvent)
    → Tell r (heard_in evs).0 false (consumed r evs).0 × ((consumed r evs).1 ≡ (heard_in evs).1)
unfolding consumed
consumed-Tell r [] = ((tt, unfold any_gone in refl), refl)
consumed-Tell r (data_event ev ∷ evs) =
    let h = consumed-Tell r evs in
    (Tell-append r (ev ∷ []) (heard_in evs).0 false (demux r ev) _ (one-Tell r ev) h.0, h.1)
consumed-Tell r (auth_revoked ∷ evs) = ((tt, unfold any_gone in refl), refl)
consumed-Tell r (cancelled ∷ evs) = ((tt, unfold any_gone in refl), refl)

lost-Tell : (r : Role) → Tell r [] true (gone ∷ [])
lost-Tell r = ((tt, tt), unfold any_gone in refl)

quiet-Tell : (r : Role) → Tell r [] false []
quiet-Tell r = (tt, unfold any_gone in refl)

opened-Tell :
    (r : Role) (evs : List StreamEvent) (ended : Bool) (tries : List Attempt)
    → let (xs, lost) = heard_over tries in
      Tell r xs lost (reopened r tries)
      → let (ys, gave_up) = heard_over (opened evs ended ∷ tries) in
        Tell r ys gave_up (reopened r (opened evs ended ∷ tries))
unfolding reopened
opened-Tell r evs ended tries h =
    let (told, same) = consumed-Tell r evs in
    let evs' = (heard_in evs).0 in
    let es = (consumed r evs).0 in
    elim (Bool-cases (heard_in evs).1) [
      | inl c ↦
          rw (same, c)
            (subst (λ ys. Tell r ys true (es ++ (gone ∷ []))) (append-nil evs')
              (Tell-append r evs' [] true es (gone ∷ []) told (lost-Tell r)))
      | inr n ↦ elim (Bool-cases ended) [
        | inl d ↦
            rw (same, n, d)
              (subst (λ ys. Tell r ys false (es ++ [])) (append-nil evs')
                (Tell-append r evs' [] false es [] told (quiet-Tell r)))
        | inr d ↦
            rw (same, n, d)
              (Tell-append r evs' (heard_over tries).0 (heard_over tries).1 es (reopened r tries)
                told h)
      ]
    ]

reopened-Tell :
    (r : Role) (tries : List Attempt)
    → let (xs, lost) = heard_over tries in Tell r xs lost (reopened r tries)
unfolding reopened
reopened-Tell r [] = quiet-Tell r
reopened-Tell r (cut_off ∷ tries) = quiet-Tell r
reopened-Tell r (refused true denied ∷ tries) = quiet-Tell r
reopened-Tell r (refused false true ∷ tries) = lost-Tell r
reopened-Tell r (refused false false ∷ tries) = reopened-Tell r tries
reopened-Tell r (opened evs ended ∷ tries) = opened-Tell r evs ended tries (reopened-Tell r tries)

pub emissions-Tell :
    (r : Role) (first : Option (List StreamEvent × Bool)) (tries : List Attempt)
    → let (xs, lost) = heard first tries in Tell r xs lost (emissions r first tries)
unfolding emissions
emissions-Tell r none tries = lost-Tell r
emissions-Tell r (some (evs, ended)) tries = reopened-Tell r (opened evs ended ∷ tries)
