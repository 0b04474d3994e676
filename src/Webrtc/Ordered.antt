-- ===== src/Webrtc/Ordered.antt =====
-- webrtc/connect.go: no candidate overtakes the description, and none is lost or sent twice.
use mathlib.Core.List.{append_assoc, append-nil}
use freedesk.Prelude.{
  ℕ, ◌+◌, ◌≡◌, refl, ◌∙◌, sym, ap, Bool, true, false, List, [], ◌∷◌, ◌++◌, if◌then◌else◌, map,
  arith, Bool-cases, inl, inr, subst,
}
use freedesk.Signaling.{IceCandidate}
use freedesk.Webrtc.{
  Peer, new_peer, Sent, description, own_candidate, Event, gathers, describes, starts, Late, finds,
  loops, late_event, run, negotiation,
}

-- How many candidates are such that.
unfoldable pub count : (IceCandidate → Bool) → List IceCandidate → ℕ
count P [] = 0
count P (c ∷ cs) = let n = count P cs in if P c then n + 1 else n

abbrev pub found : List Late → List IceCandidate
found [] = []
found (finds c ∷ es) = c ∷ found es
found (loops ∷ es) = found es

abbrev waiting : List IceCandidate → Peer
waiting cs = record { publishing = false; pending = cs; flushing = [] }

abbrev open_peer : List IceCandidate → Peer
open_peer cs = record { publishing = true; pending = []; flushing = cs }

count-append :
    (P : IceCandidate → Bool) (xs ys : List IceCandidate)
    → count P (xs ++ ys) ≡ count P xs + count P ys
unfolding count
count-append P [] ys = omega arith
count-append P (x ∷ xs) ys = elim (Bool-cases (P x)) [
  | inl e ↦ rw e (omega (arith, count-append P xs ys))
  | inr e ↦ rw e (count-append P xs ys)
]

run-waiting :
    (held cs : List IceCandidate) (es : List Event)
    → run (waiting held) (map gathers cs ++ es) ≡ run (waiting (held ++ cs)) es
unfolding run
run-waiting held [] es = ap (λ p. run (waiting p) es) (sym (append-nil held))
run-waiting held (c ∷ cs) es =
    run-waiting (held ++ (c ∷ [])) cs es
    ∙ ap (λ p. run (waiting p) es) (append_assoc held (c ∷ []) cs)

-- What was sent are candidates, and with those that the loop has still to send they are these.
abbrev pub SentOf : Peer × List Sent → ((IceCandidate → Bool) → ℕ) → Type 0
SentOf (p, sent) all =
    (cs : List IceCandidate) × (sent ≡ map own_candidate cs)
    × ((P : IceCandidate → Bool) → count P cs + count P p.flushing ≡ all P)

SentOf-cons :
    (c : IceCandidate) (p : Peer) (sent : List Sent) (all more : (IceCandidate → Bool) → ℕ)
    → ((P : IceCandidate → Bool) → count P (c ∷ []) + all P ≡ more P)
    → SentOf (p, sent) all
    → SentOf (p, own_candidate c ∷ sent) more
SentOf-cons c p sent all more h (cs, e, k) = (
  c ∷ cs,
  ap (λ s. own_candidate c ∷ s) e,
  λ P. omega (arith, count-append P (c ∷ []) cs, h P, k P),
)

run-open :
    (held : List IceCandidate) (es : List Late)
    → SentOf (run (open_peer held) (map late_event es)) (λ P. count P held + count P (found es))
unfolding run
run-open held [] = ([], refl, λ P. unfold count in omega arith)
run-open held (finds c ∷ es) =
    SentOf-cons c (run (open_peer held) (map late_event es)).0
      (run (open_peer held) (map late_event es)).1 (λ P. count P held + count P (found es))
      (λ P. count P held + count P (c ∷ found es))
      (λ P. omega (arith, count-append P (c ∷ []) (found es))) (run-open held es)
run-open [] (loops ∷ es) = run-open [] es
run-open (c ∷ held) (loops ∷ es) =
    SentOf-cons c (run (open_peer held) (map late_event es)).0
      (run (open_peer held) (map late_event es)).1 (λ P. count P held + count P (found es))
      (λ P. count P (c ∷ held) + count P (found es))
      (λ P. omega (arith, count-append P (c ∷ []) held)) (run-open held es)

run-shut :
    (held : List IceCandidate) (es : List Late)
    → SentOf (run (waiting held) (map late_event es)) (λ P. 0)
unfolding run
run-shut held [] = ([], refl, λ P. unfold count in refl)
run-shut held (finds c ∷ es) = run-shut (held ++ (c ∷ [])) es
run-shut held (loops ∷ es) = run-shut held es

run_described :
    (before during : List IceCandidate) (es : List Event)
    → let x = run (waiting (before ++ during)) es in
      run (waiting []) (map gathers before ++ (describes ∷ (map gathers during ++ es)))
      ≡ (x.0, description ∷ x.1)
unfolding run
run_described before during es =
    run-waiting [] before (describes ∷ (map gathers during ++ es))
    ∙ ap (λ x. (x.0, description ∷ x.1)) (run-waiting before during es)

abbrev Described : Peer × List Sent → ((IceCandidate → Bool) → ℕ) → Type 0
Described (p, sent) all =
    (cs : List IceCandidate) × (sent ≡ description ∷ map own_candidate cs)
    × ((P : IceCandidate → Bool) → count P cs + count P p.flushing ≡ all P)

-- The candidates of a negotiation, whenever they are gathered, and however that is interleaved with the
-- loop that sends those that had to wait: the description goes out first, once, and then only
-- candidates; if it was published without an error, those that went out and those that the loop
-- has not come to are those that were gathered, each as often as it was; and none goes out if it
-- was not.
pub run-negotiation :
    (before during : List IceCandidate) (succeeds : Bool) (after : List Late)
    → let (p, sent) = run new_peer (negotiation before during succeeds after) in
      (cs : List IceCandidate) × (sent ≡ description ∷ map own_candidate cs)
      × ((P : IceCandidate → Bool)
          → count P cs + count P p.flushing
            ≡ (if succeeds then count P (before ++ (during ++ found after)) else 0))
unfolding new_peer negotiation run
run-negotiation before during true after =
    let (cs, e, k) = run-open (before ++ during) after in
    subst (λ x. Described x (λ P. count P (before ++ (during ++ found after))))
      (sym (run_described before during (starts ∷ map late_event after)))
      (
        cs,
        ap (λ s. description ∷ s) e,
        λ P. omega (
          arith,
          k P,
          count-append P before during,
          count-append P before (during ++ found after),
          count-append P during (found after),
        ),
      )
run-negotiation before during false after =
    let (cs, e, k) = run-shut (before ++ during) after in
    subst (λ x. Described x (λ P. 0)) (sym (run_described before during (map late_event after)))
      (cs, ap (λ s. description ∷ s) e, k)
