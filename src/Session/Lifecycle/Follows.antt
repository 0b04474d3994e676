-- ===== src/Session/Lifecycle/Follows.antt =====
-- session/coordinator.go: sessions follow the protocol.
use freedesk.Prelude.{
  ◌≡◌, refl, ap, sym, subst, ◌∙◌, Bool, true, false, not, ◌&&◌, ◌||◌, List, [], ◌∷◌, Option, none,
  some, Text, if◌then◌else◌, is_some, arith, Bool-cases, inl, inr,
}
use freedesk.Session.Approver.{is_ok, note_connect_outcome}
use freedesk.Session.Lifecycle.{
  Prepared, ready, no_track, no_peer, Visit, Effect, input_released, Coordinator, finish_request,
  prepare_visit, arrive, Live, close_files, files_closed, close_down, Held, asked, negotiating,
  streaming, answer_visit, negotiate, Desk, Event, comes, answers, negotiates, files_close,
  input_closes, ends, tagged, hold, moved, answered, after_negotiation, after_files, after_input,
  after_end, step, run, new_desk, matches,
}
use freedesk.Session.Lifecycle.Protocol.{
  begins, failed, up, linked, free, owned, follow_all, stage_of, follow_all-append,
}
use freedesk.Session.Lifecycle.Phases.{
  finish_owned, finish_linked, begin_ready, begin_failed, turned_down, let_in, asked_first, closed,
  down_failed, down_up, came_down, came_up, input_lawful,
}

-- A session that holds the slot has not been released.
abbrev Whole : Option Held → Type 0
Whole (some (negotiating l)) = l.released ≡ false
Whole (some (streaming l)) = l.released ≡ false
Whole _ = Unit

-- The desk, against the stage that its log leads to.
record Lawful (d : Desk) : Type 0 where
  stage : follow_all free d.log ≡ some (stage_of d.held)
  slot : d.coordinator.active ≡ is_some d.held
  whole : Whole d.held

-- What happens to the one that has the slot.
abbrev Moves : Visit → Option Held → Coordinator × List Effect × Option Held → Type 0
Moves v held (c, es, new) =
    (follow_all (stage_of held) (tagged v es) ≡ some (stage_of new))
    × (c.active ≡ is_some new)
    × Whole new

moved-Lawful :
    (d : Desk) (v : Visit) (x : Coordinator × List Effect × Option Held)
    → Lawful d
    → Moves v d.held x
    → Lawful (moved d v x)
moved-Lawful d v x h m = record {
  stage = follow_all-append free (stage_of d.held) d.log _ h.stage ∙ m.0;
  slot = m.1;
  whole = m.2;
}

-- What an arrival does, while `held` has the slot.
abbrev Admits : Visit → Option Held → Coordinator × List Effect × Option Held → Type 0
Admits v held (c, es, new) = Moves v held (c, es, hold held new)

prepare_visit-Admits :
    (c : Coordinator) (v : Visit) (p : Prepared)
    → c.active ≡ false
    → Admits v none (prepare_visit c v p)
prepare_visit-Admits c v ready h = (begin_ready v, refl, tt)
prepare_visit-Admits c v no_track h = (begin_failed v, h, tt)
prepare_visit-Admits c v no_peer h = (begin_failed v, h, tt)

finish_held :
    (v : Visit) (x : Held)
    → follow_all (stage_of (some x)) (tagged v finish_request) ≡ some (stage_of (some x))
finish_held v (asked x) = finish_owned v x.request.id
finish_held v (negotiating l) = finish_linked v l.visit.request.id begins l.transfers l.clip
finish_held v (streaming l) = finish_linked v l.visit.request.id up l.transfers l.clip

arrived-Admits :
    (c : Coordinator) (v : Visit) (held : Option Held) (ignored active : Bool)
    → c.active ≡ active
    → c.active ≡ is_some held
    → Whole held
    → Admits v held (
        if ignored
        then (c, [], none)
        else if active
        then (c, finish_request, none)
        else prepare_visit c v v.prepared)
arrived-Admits c v held true active e h w = (unfold follow_all in refl, h, w)
arrived-Admits c v none false true e h w = absurd (cc)
arrived-Admits c v (some x) false true e h w = (finish_held v x, h, w)
arrived-Admits c v none false false e h w = prepare_visit-Admits c v v.prepared e
arrived-Admits c v (some x) false false e h w = absurd (cc)

arrive-Admits :
    (c : Coordinator) (v : Visit) (held : Option Held)
    → c.active ≡ is_some held
    → Whole held
    → Admits v held (arrive c v)
unfolding arrive
arrive-Admits c v held h w =
    arrived-Admits c v held (not v.starts || not (matches c.owner_uid v.request v.first)) c.active
      refl h w

answer_visit-Moves :
    (c : Coordinator) (v : Visit) → c.active ≡ true → Moves v (some (asked v)) (answer_visit c v)
unfolding answer_visit
answer_visit-Moves c v h = elim (Bool-cases (v.withdrawn || not (is_ok v.answer))) [
  | inl e ↦ rw e (
    (asked_first v _ ∙ rw e (turned_down v (note_connect_outcome c.unapproved (is_ok v.answer)).1)),
    refl,
    tt,
  )
  | inr e ↦
      let yes_ : is_ok v.answer ≡ true = ground arith in
      rw e (
        asked_first v _
            ∙ rw (e, yes_)
                (unfold note_connect_outcome in let_in v (c.shares_clipboard && v.clip_opens)),
        h,
        refl,
      )
]

negotiate-Moves :
    (c : Coordinator) (l : Live)
    → c.active ≡ true
    → l.released ≡ false
    → Moves l.visit (some (negotiating l)) (negotiate c l)
unfolding negotiate
negotiate-Moves c l h w = elim (Bool-cases l.visit.negotiates) [
  | inl e ↦ simp e (came_up l.visit l.transfers l.clip, h, w)
  | inr e ↦ simp e (
    came_down l.visit l.transfers l.clip _
        ∙ subst
            (λ b.
              follow_all (owned l.visit.request.id (linked failed l.transfers l.clip))
                (tagged l.visit (close_down (record l { released = b })))
              ≡ some free)
            (sym w) (down_failed l.visit l.transfers l.clip),
    refl,
    tt,
  )
]

answered-Lawful : (d : Desk) (o : Option Held) → d.held ≡ o → Lawful d → Lawful (answered d o)
answered-Lawful d none e h = h
answered-Lawful d (some (asked v)) e h = moved-Lawful d v _ h (
    subst (λ o. Moves v o (answer_visit d.coordinator v)) (sym e)
      (answer_visit-Moves d.coordinator v (h.slot ∙ ap is_some e)))
answered-Lawful d (some (negotiating l)) e h = h
answered-Lawful d (some (streaming l)) e h = h

negotiation-Lawful :
    (d : Desk) (o : Option Held) → d.held ≡ o → Lawful d → Lawful (after_negotiation d o)
negotiation-Lawful d none e h = h
negotiation-Lawful d (some (asked v)) e h = h
negotiation-Lawful d (some (negotiating l)) e h = moved-Lawful d l.visit _ h (
    subst (λ o. Moves l.visit o (negotiate d.coordinator l)) (sym e)
      (negotiate-Moves d.coordinator l (h.slot ∙ ap is_some e) (subst Whole e h.whole)))
negotiation-Lawful d (some (streaming l)) e h = h

files-Lawful : (d : Desk) (o : Option Held) → d.held ≡ o → Lawful d → Lawful (after_files d o)
files-Lawful d none e h = h
files-Lawful d (some (asked v)) e h = h
files-Lawful d (some (negotiating l)) e h =
    moved-Lawful d l.visit
      (d.coordinator, close_files l.transfers l.clip, some (negotiating (files_closed l))) h
      (
        ap (λ o. follow_all (stage_of o) (tagged l.visit (close_files l.transfers l.clip))) e
            ∙ closed l.visit begins l.transfers l.clip,
        h.slot ∙ ap is_some e,
        subst Whole e h.whole,
      )
files-Lawful d (some (streaming l)) e h =
    moved-Lawful d l.visit
      (d.coordinator, close_files l.transfers l.clip, some (streaming (files_closed l))) h
      (
        ap (λ o. follow_all (stage_of o) (tagged l.visit (close_files l.transfers l.clip))) e
            ∙ closed l.visit up l.transfers l.clip,
        h.slot ∙ ap is_some e,
        subst Whole e h.whole,
      )

input-Lawful : (d : Desk) (o : Option Held) → d.held ≡ o → Lawful d → Lawful (after_input d o)
input-Lawful d none e h = h
input-Lawful d (some (asked v)) e h = h
input-Lawful d (some (negotiating l)) e h = h
input-Lawful d (some (streaming l)) e h =
    moved-Lawful d l.visit (d.coordinator, input_released ∷ [], some (streaming l)) h
      (
        ap (λ o. follow_all (stage_of o) (tagged l.visit (input_released ∷ []))) e
            ∙ input_lawful l.visit l.transfers l.clip,
        h.slot ∙ ap is_some e,
        subst Whole e h.whole,
      )

end-Lawful : (d : Desk) (o : Option Held) → d.held ≡ o → Lawful d → Lawful (after_end d o)
end-Lawful d none e h = h
end-Lawful d (some (asked v)) e h = h
end-Lawful d (some (negotiating l)) e h = h
end-Lawful d (some (streaming l)) e h =
    let w : l.released ≡ false = subst Whole e h.whole in
    moved-Lawful d l.visit
      (record d.coordinator { active = false }, input_released ∷ close_down l, none) h
      (
        ap (λ o. follow_all (stage_of o) (tagged l.visit (input_released ∷ close_down l))) e
            ∙ subst
                (λ b.
                  follow_all (owned l.visit.request.id (linked up l.transfers l.clip))
                    (tagged l.visit (input_released ∷ close_down (record l { released = b })))
                  ≡ some free)
                (sym w) (down_up l.visit l.transfers l.clip),
        refl,
        tt,
      )

step-Lawful : (d : Desk) (e : Event) → Lawful d → Lawful (step d e)
unfolding step
step-Lawful d (comes v) h =
    moved-Lawful d v _ h (arrive-Admits d.coordinator v d.held h.slot h.whole)
step-Lawful d answers h = answered-Lawful d d.held refl h
step-Lawful d negotiates h = negotiation-Lawful d d.held refl h
step-Lawful d files_close h = files-Lawful d d.held refl h
step-Lawful d input_closes h = input-Lawful d d.held refl h
step-Lawful d ends h = end-Lawful d d.held refl h

run-Lawful : (d : Desk) (es : List Event) → Lawful d → Lawful (run d es)
unfolding run
run-Lawful d [] h = h
run-Lawful d (e ∷ es) h = run-Lawful (step d e) es (step-Lawful d e h)

-- Whatever requests come, at any moment of the session that has the slot, and whatever they meet: the log
-- of what sessions did follows the protocol. One session has the slot at a time; the connection is
-- negotiated, the clipboard worker started and the screen streamed only by that one, after the
-- operator's yes and no withdrawal; its transfers are closed, a worker that was started is stopped, by
-- the file channel's close or by release, and the peer is closed after them, each once, before the slot
-- is free again; and the slot is taken exactly while a request waits for its answer, a connection is
-- being negotiated, or one is up.
pub run_follows :
    (owner : Text) (shares : Bool) (es : List Event)
    → let d = run (new_desk owner shares) es in
      (follow_all free d.log ≡ some (stage_of d.held)) × (d.coordinator.active ≡ is_some d.held)
run_follows owner shares es =
    let h =
      run-Lawful (new_desk owner shares) es
        (record { stage = unfold follow_all in refl; slot = refl; whole = tt }) in
    (h.stage, h.slot)
