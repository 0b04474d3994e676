-- ===== src/Session/Inbox/Once.antt =====
-- session/inbox.go: a request is handled once, and what the inbox forgets makes no difference.
use freedesk.Prelude.{
  ℕ, ◌+◌, ◌≤◌, ◌<◌, ◌≡◌, refl, sym, ap, ◌∙◌, true, false, ◌||◌, List, [], ◌∷◌, ◌++◌, Text,
  if◌then◌else◌, ltb, All, eq_text, eq_text_iff, arith, Bool-cases, inl, inr,
}
use mathlib.Core.Path.{ap₂, subst}
use mathlib.Core.List.{append_assoc}
use freedesk.Session.Inbox.{
  Seen, Turn, Request, Effect, removed, handled, Event, has_id, forget, is_dropped, request_of,
  dispatch, dispatch_all, turns, handle_data, handle_events, stale_request_age,
}
use freedesk.Session.Inbox.Memory.{
  CreatedBy, is_old, Remembers, old_stale, forget-Remembers, pass-Remembers, note-Remembers,
}

-- The requests among the effects.
unfoldable pub requests : List Effect → List Request
requests [] = []
requests (removed id ∷ es) = requests es
requests (handled r ∷ es) = r ∷ requests es

requests-append : (es fs : List Effect) → requests (es ++ fs) ≡ requests es ++ requests fs
unfolding requests
requests-append [] fs = refl
requests-append (removed id ∷ es) fs = requests-append es fs
requests-append (handled r ∷ es) fs = ap (λ rs. r ∷ rs) (requests-append es fs)

-- An inbox that forgets nothing: every turn after the first of an id is passed over.
unfoldable pub first_only : Seen → List Turn → List Request
first_only past [] = []
first_only past (t ∷ ts) =
    (if has_id t.id past || is_dropped t then [] else request_of t ∷ [])
    ++ first_only ((t.id, t.now) ∷ past) ts

-- The clock does not run backwards, and an entry that is read again was created before the first
-- time that it was read.
abbrev pub IsReplay : ℕ → Seen → List Turn → Type 0
IsReplay at past [] = Unit
IsReplay at past (t ∷ ts) =
    (at ≤ t.now)
    × All (λ p. eq_text p.0 t.id ≡ true → CreatedBy t.entry.created_at p.1) past
    × IsReplay t.now ((t.id, t.now) ∷ past) ts

requests_decision :
    (t : Turn)
    → requests (removed t.id ∷ (if is_dropped t then [] else handled (request_of t) ∷ []))
      ≡ (if is_dropped t then [] else request_of t ∷ [])
unfolding requests
requests_decision t = ground arith

-- A turn that the inbox has forgotten is stale.
forgotten_dropped :
    {kept past : Seen} (t : Turn)
    → Remembers kept past t.now
    → All (λ p. eq_text p.0 t.id ≡ true → CreatedBy t.entry.created_at p.1) past
    → has_id t.id kept ≡ false
    → (has_id t.id past || is_dropped t) ≡ is_dropped t
forgotten_dropped {kept} {past} t r all n = elim (Bool-cases (has_id t.id past)) [
  | inl e ↦
      let aged : is_old t.id t.now past ≡ true = ground (arith, r.kept t.id e) in
      ground (arith, old_stale t.id t.now t.entry.created_at past all aged)
  | inr no_one ↦ rw no_one refl
]

dispatch_all_first :
    (seen past : Seen) (at : ℕ) (ts : List Turn)
    → Remembers seen past at
    → IsReplay at past ts
    → requests (dispatch_all seen ts).1 ≡ first_only past ts
unfolding dispatch_all dispatch first_only
dispatch_all_first seen past at [] r h = unfold requests in refl
dispatch_all_first seen past at (t ∷ ts) r h =
    let q = forget-Remembers t.now h.0 r in
    elim (Bool-cases (has_id t.id (forget t.now seen))) [
      | inl e ↦
          rw (e, q.read t.id e)
            (dispatch_all_first (forget t.now seen) ((t.id, t.now) ∷ past) t.now ts
              (pass-Remembers t.id e q) h.2)
      | inr n ↦
          rw (n, forgotten_dropped t q h.1 n)
            (requests-append
                (removed t.id ∷ (if is_dropped t then [] else handled (request_of t) ∷ [])) _
              ∙ ap₂ (λ xs ys. xs ++ ys) (requests_decision t)
                  (dispatch_all_first ((t.id, t.now) ∷ forget t.now seen) ((t.id, t.now) ∷ past)
                    t.now ts (note-Remembers t.id q) h.2))
    ]

dispatch_all-append :
    (seen : Seen) (ts us : List Turn)
    → requests (dispatch_all seen (ts ++ us)).1
      ≡ requests (dispatch_all seen ts).1 ++ requests (dispatch_all (dispatch_all seen ts).0 us).1
unfolding dispatch_all
dispatch_all-append seen [] us = unfold requests in refl
dispatch_all-append seen (t ∷ ts) us =
    let (kept, done) = dispatch seen t in
    requests-append done _
    ∙ ap (λ xs. requests done ++ xs) (dispatch_all-append kept ts us)
    ∙ sym (append_assoc (requests done) _ _)
    ∙ ap (λ xs. xs ++ requests (dispatch_all (dispatch_all kept ts).0 us).1)
        (sym (requests-append done _))

-- The entries of a whole life, in the order in which they are dispatched.
unfoldable pub all_turns_of : List Event → List Turn
all_turns_of [] = []
all_turns_of (ev ∷ evs) = turns ev ++ all_turns_of evs

handle_events-turns :
    (seen : Seen) (evs : List Event)
    → requests (handle_events seen evs).1 ≡ requests (dispatch_all seen (all_turns_of evs)).1
unfolding handle_events handle_data all_turns_of
handle_events-turns seen [] = unfold dispatch_all in refl
handle_events-turns seen (ev ∷ evs) =
    let (kept, done) = dispatch_all seen (turns ev) in
    requests-append done _
    ∙ ap (λ xs. requests done ++ xs) (handle_events-turns kept evs)
    ∙ sym (dispatch_all-append seen (turns ev) (all_turns_of evs))

-- No two requests have one id.
abbrev pub NoRepeats : List Request → Type 0
NoRepeats [] = Unit
NoRepeats (r ∷ rs) = All (λ s. eq_text r.id s.id ≡ false) rs × NoRepeats rs

first_only_new :
    (id : Text) (past : Seen) (ts : List Turn)
    → has_id id past ≡ true
    → All (λ r. eq_text id r.id ≡ false) (first_only past ts)
unfolding first_only
first_only_new id past [] h = tt
first_only_new id past (t ∷ ts) h =
    let rest = first_only_new id ((t.id, t.now) ∷ past) ts (ground arith) in
    elim (Bool-cases (has_id t.id past || is_dropped t)) [
      | inl e ↦ rw e rest
      | inr n ↦ rw n (
        elim (Bool-cases (eq_text id t.id)) [
          | inl same ↦
              absurd
                (ground (arith, subst (λ x. has_id x past ≡ true) ((eq_text_iff id t.id).0 same) h))
          | inr other ↦ other
        ],
        rest,
      )
    ]

first_only-NoRepeats : (past : Seen) (ts : List Turn) → NoRepeats (first_only past ts)
unfolding first_only
first_only-NoRepeats past [] = tt
first_only-NoRepeats past (t ∷ ts) =
    let rest = first_only-NoRepeats ((t.id, t.now) ∷ past) ts in
    elim (Bool-cases (has_id t.id past || is_dropped t)) [
      | inl e ↦ rw e rest
      | inr n ↦ rw n (
        first_only_new t.id ((t.id, t.now) ∷ past) ts (ground (arith, eq_text_iff t.id t.id)),
        rest,
      )
    ]

-- Over any events, of any number of streams, where the clock does not run backwards and an entry that
-- is read again was created before it was first read: the requests that are handled are those of
-- an inbox that forgets no id, the first entry of each id unless it is stale or names no
-- viewer; so no request is handled twice.
pub handle_events-first_only :
    (evs : List Event)
    → IsReplay 0 [] (all_turns_of evs)
    → (requests (handle_events [] evs).1 ≡ first_only [] (all_turns_of evs))
      × NoRepeats (requests (handle_events [] evs).1)
handle_events-first_only evs h =
    let same =
      handle_events-turns [] evs ∙ dispatch_all_first [] [] 0 (all_turns_of evs) nothing_yet h in
    (same, subst NoRepeats (sym same) (first_only-NoRepeats [] (all_turns_of evs)))
  where
    nothing_yet : Remembers [] [] 0
    nothing_yet = record { read = λ id h. h; old = λ id at h. h; kept = λ id h. absurd (cc) }

-- Where the host's clock is behind the server's, an entry that could not be removed and is read again
-- after five minutes, while it still looks fresh, is handled twice.
pub dispatch_all_again :
    (t u : Turn)
    → t.id ≡ u.id
    → is_dropped t ≡ false
    → is_dropped u ≡ false
    → t.now + stale_request_age < u.now
    → requests (dispatch_all [] (t ∷ u ∷ [])).1 ≡ request_of t ∷ request_of u ∷ []
unfolding dispatch_all dispatch forget requests
dispatch_all_again t u e f g l = elim (Bool-cases (ltb (t.now + stale_request_age) u.now)) [
  | inl far ↦ rw (f, far, g) refl
  | inr near ↦ absurd (ground arith)
]
