-- ===== src/Session/Lifecycle/Phases.antt =====
-- session/coordinator.go: what each part of a session does, along the protocol.
use freedesk.Prelude.{
  ◌≡◌, refl, Bool, true, false, not, ◌||◌, List, [], ◌∷◌, ◌++◌, some, Text, eq_text, eq_text_iff,
  if◌then◌else◌, arith,
}
use freedesk.Session.Approver.{is_ok}
use freedesk.Session.Lifecycle.{
  connecting, connected, Visit, Effect, slot_taken, slot_freed, sets, gathers, asks, reports,
  clip_started, negotiated, streams, input_released, transfers_closed, finish_request, close_files,
  release, close_down, begun, tagged,
}
use freedesk.Session.Lifecycle.Protocol.{
  Link, begins, failed, up, live, declined, linked, free, owned, follow_phase, is_finish, follow,
  follow_all,
}

eq_text_self : (x : Text) → eq_text x x ≡ true
eq_text_self x = (eq_text_iff x x).1 refl

module _ (v : Visit) where
  pub finish_owned :
      (x : Text) → follow_all (owned x live) (tagged v finish_request) ≡ some (owned x live)
  unfolding follow_all follow is_finish
  finish_owned x = refl

  pub finish_linked :
      (x : Text) (k : Link) (t c : Bool)
      → follow_all (owned x (linked k t c)) (tagged v finish_request)
        ≡ some (owned x (linked k t c))
  unfolding follow_all follow is_finish
  finish_linked x k t c = refl

  pub begin_ready :
      follow_all free (tagged v (slot_taken ∷ sets connecting ∷ gathers ∷ []))
      ≡ some (owned v.request.id live)
  unfolding follow_all follow follow_phase is_finish
  begin_ready = ground (arith, eq_text_self v.request.id)

  pub begin_failed :
      follow_all free (
        tagged v
          (slot_taken ∷ sets connecting ∷ transfers_closed ∷ (finish_request ++ (slot_freed ∷ []))))
      ≡ some free
  unfolding follow_all follow follow_phase is_finish
  begin_failed = ground (arith, eq_text_self v.request.id)

  pub turned_down :
      (limit : Bool)
      → follow_all (owned v.request.id declined) (
          tagged v (
            (if limit then reports ∷ [] else [])
            ++ (finish_request ++ ((release (begun v false)).1 ++ (slot_freed ∷ [])))))
        ≡ some free
  unfolding follow_all follow follow_phase is_finish release
  turned_down true = ground (arith, eq_text_self v.request.id)
  turned_down false = ground (arith, eq_text_self v.request.id)

  pub let_in :
      (clip : Bool)
      → follow_all
          (owned v.request.id (linked begins true false))
          (tagged v (if clip then clip_started ∷ [] else []))
        ≡ some (owned v.request.id (linked begins true clip))
  unfolding follow_all follow follow_phase is_finish
  let_in true = ground (arith, eq_text_self v.request.id)
  let_in false = refl

  pub asked_first :
      (rest : List (Text × Effect))
      → follow_all (owned v.request.id live) ((v.request.id, asks v.answer v.withdrawn) ∷ rest)
        ≡ follow_all
            (owned v.request.id
              (if v.withdrawn || not (is_ok v.answer) then declined else linked begins true false))
            rest
  unfolding follow_all follow follow_phase is_finish
  asked_first rest = ground (arith, eq_text_self v.request.id)

  pub closed :
      (k : Link) (t c : Bool)
      → follow_all (owned v.request.id (linked k t c)) (tagged v (close_files t c))
        ≡ some (owned v.request.id (linked k false false))
  unfolding follow_all follow follow_phase is_finish
  closed begins true true = ground (arith, eq_text_self v.request.id)
  closed begins true false = ground (arith, eq_text_self v.request.id)
  closed begins false true = ground (arith, eq_text_self v.request.id)
  closed begins false false = refl
  closed failed true true = ground (arith, eq_text_self v.request.id)
  closed failed true false = ground (arith, eq_text_self v.request.id)
  closed failed false true = ground (arith, eq_text_self v.request.id)
  closed failed false false = refl
  closed up true true = ground (arith, eq_text_self v.request.id)
  closed up true false = ground (arith, eq_text_self v.request.id)
  closed up false true = ground (arith, eq_text_self v.request.id)
  closed up false false = refl

  -- With what has not been released yet; the second release does nothing.
  pub down_failed :
      (t c : Bool)
      → follow_all
          (owned v.request.id (linked failed t c))
          (tagged v (close_down (record { visit = v; transfers = t; clip = c; released = false })))
        ≡ some free
  unfolding follow_all follow follow_phase is_finish close_down release
  down_failed true true = ground (arith, eq_text_self v.request.id)
  down_failed true false = ground (arith, eq_text_self v.request.id)
  down_failed false true = ground (arith, eq_text_self v.request.id)
  down_failed false false = ground (arith, eq_text_self v.request.id)

  pub down_up :
      (t c : Bool)
      → follow_all (owned v.request.id (linked up t c)) (
          tagged v (
            input_released
            ∷ close_down (record { visit = v; transfers = t; clip = c; released = false })))
        ≡ some free
  unfolding follow_all follow follow_phase is_finish close_down release
  down_up true true = ground (arith, eq_text_self v.request.id)
  down_up true false = ground (arith, eq_text_self v.request.id)
  down_up false true = ground (arith, eq_text_self v.request.id)
  down_up false false = ground (arith, eq_text_self v.request.id)

  pub came_down :
      (t c : Bool) (rest : List (Text × Effect))
      → follow_all
          (owned v.request.id (linked begins t c))
          ((v.request.id, negotiated false) ∷ rest)
        ≡ follow_all (owned v.request.id (linked failed t c)) rest
  unfolding follow_all follow follow_phase is_finish
  came_down true true rest = ground (arith, eq_text_self v.request.id)
  came_down true false rest = ground (arith, eq_text_self v.request.id)
  came_down false true rest = ground (arith, eq_text_self v.request.id)
  came_down false false rest = ground (arith, eq_text_self v.request.id)

  pub came_up :
      (t c : Bool)
      → follow_all
          (owned v.request.id (linked begins t c))
          (tagged v (negotiated true ∷ sets connected ∷ streams ∷ []))
        ≡ some (owned v.request.id (linked up t c))
  unfolding follow_all follow follow_phase is_finish
  came_up true true = ground (arith, eq_text_self v.request.id)
  came_up true false = ground (arith, eq_text_self v.request.id)
  came_up false true = ground (arith, eq_text_self v.request.id)
  came_up false false = ground (arith, eq_text_self v.request.id)

  pub input_lawful :
      (t c : Bool)
      → follow_all (owned v.request.id (linked up t c)) (tagged v (input_released ∷ []))
        ≡ some (owned v.request.id (linked up t c))
  unfolding follow_all follow follow_phase is_finish
  input_lawful true true = ground (arith, eq_text_self v.request.id)
  input_lawful true false = ground (arith, eq_text_self v.request.id)
  input_lawful false true = ground (arith, eq_text_self v.request.id)
  input_lawful false false = ground (arith, eq_text_self v.request.id)
