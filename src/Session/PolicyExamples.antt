-- ===== src/Session/PolicyExamples.antt =====
-- The theorems about the operator's quiet and the order of a session, at concrete inputs.
use freedesk.Prelude.{
  ◌<◌, ◌≡◌, ◌↔◌, refl, true, false, [], ◌∷◌, none, some, List, Text, text, pos, is_some, map,
}
use freedesk.Session.Approver.{
  Offer, refused, allowed, new_approver, ask_all, ask_files, is_quiet, approves,
  note_connect_outcome, max_unanswered_prompts,
}
use freedesk.Session.Approver.Quiet.{silences, IsRested, ask_files_iff}
use freedesk.Session.Lifecycle.{
  Visit, waiting, arrived, ready, comes, new_desk, run, step, arrive, answer_visit, negotiate,
  close_down, release, Event, answers, negotiates, files_close, ends, slot_taken, sets, gathers,
  connecting, asks, clip_started, negotiated, connected, streams, input_released, transfers_closed,
  clip_stopped, peer_closed, ended, node_deleted, entry_deleted, slot_freed,
}
use freedesk.Session.Lifecycle.Protocol.{free, follow_all, stage_of}
use freedesk.Session.Lifecycle.Follows.{run_follows}

-- Two refusals, ten and twenty seconds of quiet.
abbrev no_twice : List Offer
no_twice =
    record { at = 0; answer = refused; answered_at = 5000000000 }
    ∷ record { at = 9000000000; answer = allowed; answered_at = 9000000000 }
    ∷ record { at = 15000000000; answer = refused; answered_at = 16000000000 }
    ∷ []

abbrev third : Offer
third = record { at = 35000000000; answer = allowed; answered_at = 36000000000 }

still_quiet : (ask_files (ask_all new_approver [] no_twice).0 third).1 ≡ none
unfolding ask_files ask_all is_quiet
still_quiet = refl

ask_files_iff_example :
    let (a, put) = ask_all new_approver [] no_twice in
    let said = (ask_files a third).1 in
    ((is_some said ≡ true) ↔ ((silences put < max_unanswered_prompts) × IsRested put third.at))
    × ((approves said ≡ true) ↔ ((is_some said ≡ true) × (third.answer ≡ allowed)))
ask_files_iff_example = ask_files_iff no_twice third

abbrev host : Text
host = text "host"

abbrev visit : Visit
visit = record {
  request = record { id = text "s1"; viewer_uid = text "v"; code = text "1"; created_at = pos 0 };
  starts = true;
  first = arrived (record { viewer_uid = text "v"; owner_uid = host; status = waiting });
  prepared = ready;
  answer = allowed;
  withdrawn = false;
  clip_opens = true;
  negotiates = true;
}

abbrev second_visit : Visit
second_visit = record visit {
  request = record { id = text "s2"; viewer_uid = text "v"; code = text "1"; created_at = pos 0 };
}

-- One request while the first waits, one while its connection is up; the file channel closes first.
abbrev day : List Event
day =
    comes visit
    ∷ comes second_visit
    ∷ answers
    ∷ negotiates
    ∷ comes second_visit
    ∷ files_close
    ∷ ends
    ∷ []

one_at_a_time :
    map (λ p. p.1) (run (new_desk host true) day).log
    ≡ slot_taken
      ∷ sets connecting
      ∷ gathers
      ∷ sets ended
      ∷ node_deleted
      ∷ entry_deleted
      ∷ asks allowed false
      ∷ clip_started
      ∷ negotiated true
      ∷ sets connected
      ∷ streams
      ∷ sets ended
      ∷ node_deleted
      ∷ entry_deleted
      ∷ transfers_closed
      ∷ clip_stopped
      ∷ input_released
      ∷ peer_closed
      ∷ sets ended
      ∷ node_deleted
      ∷ entry_deleted
      ∷ slot_freed
      ∷ []
unfolding run step arrive answer_visit negotiate close_down release note_connect_outcome
one_at_a_time = refl

run_follows_example :
    let d = run (new_desk host true) day in
    (follow_all free d.log ≡ some (stage_of d.held)) × (d.coordinator.active ≡ is_some d.held)
run_follows_example = run_follows host true day
