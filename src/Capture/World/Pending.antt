-- ===== src/Capture/World/Pending.antt =====
-- capture/pipeline.go: what one tick does to a request for a keyframe.
use freedesk.Prelude.{
  ℕ, ◌≡◌, refl, Bool, true, false, not, ◌&&◌, ◌||◌, Option, none, some, arith, sym, subst,
  Bool-cases, inl, inr, is_some,
}
use freedesk.Vpx.{Size}
use freedesk.Capture.Loop.{
  Loop, Grab, unavailable, failed, picture, Ticked, ended, idle, work, tick, hand_over,
  with_converter, begin_converter, convert, keyframe_due, has_passed, keyframe_min_interval,
  Converter, resumed, fitting, new_converter, idle_interval,
}

-- What a tick does to the request.
abbrev pub Keeps : Bool → Bool → Ticked → Type 0
Keeps want restart ended = Unit
Keeps want restart (idle l w) = (w ≡ want) × (restart ≡ true → l.restart ≡ true)
Keeps want restart (work l w c d) =
    ((want || d.restart || d.keyframe) ≡ (w || d.restart || d.keyframe))
    × (restart ≡ true → d.load ≡ true)

hand_over-Keeps :
    (l : Loop) (want : Bool) (c : Converter) (now : ℕ) (load force restart : Bool)
    → (restart ≡ true → load ≡ true)
    → Keeps want restart (hand_over l want c now load force restart)
hand_over-Keeps l want c now load force true h = (ground arith, h)
hand_over-Keeps l want c now load true false h = (ground arith, h)
hand_over-Keeps l want c now load false false h =
    elim (Bool-cases (not load && not (has_passed idle_interval l.last_job now))) [
      | inl quiet ↦ rw quiet (refl, λ e. absurd (cc))
      | inr busy ↦ rw busy (refl, h)
    ]

Keeps-weaken :
    (want r r' : Bool) (t : Ticked) → (r ≡ true → r' ≡ true) → Keeps want r' t → Keeps want r t
Keeps-weaken want r r' ended h k = tt
Keeps-weaken want r r' (idle l w) h k = (k.0, λ e. k.1 (h e))
Keeps-weaken want r r' (work l w c d) h k = (k.0, λ e. k.1 (h e))

with_converter-Keeps :
    (l : Loop) (want : Bool) (c : Converter) (now : ℕ) (changed painted : Bool)
    → Keeps want l.restart (with_converter l want c now changed painted)
unfolding with_converter
with_converter-Keeps l want c now changed painted =
    hand_over-Keeps l want c now (changed || l.restart || painted) _ l.restart (λ e. ground arith)

convert-Keeps :
    (l : Loop) (want : Bool) (m now : ℕ) (size : Size) (changed painted scaler : Bool)
    (c : Option Converter)
    → Keeps want l.restart (convert l want m now size changed painted scaler c)
convert-Keeps l want m now size changed painted scaler (some c) =
    with_converter-Keeps l want c now changed painted
convert-Keeps l want m now size changed painted scaler none = begun (new_converter m size scaler)
  where
    begun :
        (c : Option Converter) → Keeps want l.restart (begin_converter l want now changed painted c)
    begun none = tt
    begun (some c) =
        Keeps-weaken want l.restart true _ (λ e. refl)
          (with_converter-Keeps (record l { conv = some c; restart = true }) want c now changed
            painted)

pub tick-Keeps :
    (m : ℕ) (l : Loop) (want : Bool) (now : ℕ) (g : Grab)
    → Keeps want l.restart (tick m l want now g)
unfolding tick
tick-Keeps m l want now unavailable = (refl, λ e. e)
tick-Keeps m l want now (failed true) = (refl, λ e. e)
tick-Keeps m l want now (failed false) = tt
tick-Keeps m l want now (picture size changed painted scaler) =
    Keeps-weaken want l.restart (resumed l).restart _ (λ e. ground arith)
      (convert-Keeps (resumed l) want m now size changed painted scaler
        (fitting size (resumed l).conv))

-- Whether a tick hands over a job that makes a keyframe.
abbrev pub makes_keyframe : Ticked → Bool
makes_keyframe ended = false
makes_keyframe (idle l w) = false
makes_keyframe (work l w c d) = d.restart || d.keyframe

due_hand_over :
    (l : Loop) (c : Converter) (now : ℕ) (load force restart : Bool)
    → force ≡ true
    → makes_keyframe (hand_over l true c now load force restart) ≡ true
due_hand_over l c now load force true h = refl
due_hand_over l c now load true false h = refl
due_hand_over l c now load false false h = cc

due_converter :
    (l : Loop) (c : Converter) (now : ℕ) (changed painted : Bool)
    → has_passed keyframe_min_interval l.last_forced now ≡ true
    → makes_keyframe (with_converter l true c now changed painted) ≡ true
unfolding with_converter keyframe_due
due_converter l c now changed painted h = due_hand_over l c now _ _ l.restart (ground arith)

due_begin :
    (l : Loop) (now : ℕ) (changed painted : Bool) (c : Option Converter)
    → has_passed keyframe_min_interval l.last_forced now ≡ true
    → is_some c ≡ true
    → makes_keyframe (begin_converter l true now changed painted c) ≡ true
due_begin l now changed painted none h k = cc
due_begin l now changed painted (some c) h k =
    due_converter (record l { conv = some c; restart = true }) c now changed painted h

due_convert :
    (l : Loop) (m now : ℕ) (size : Size) (changed painted scaler : Bool) (c : Option Converter)
    → has_passed keyframe_min_interval l.last_forced now ≡ true
    → (is_some c || is_some (new_converter m size scaler)) ≡ true
    → makes_keyframe (convert l true m now size changed painted scaler c) ≡ true
due_convert l m now size changed painted scaler (some c) h k =
    due_converter l c now changed painted h
due_convert l m now size changed painted scaler none h k =
    due_begin l now changed painted (new_converter m size scaler) h k

-- A request that waits is honoured by the first tick that gets a picture, half a second or more after
-- the last forced keyframe, where there is a converter for the picture or one can be made: the job
-- that it hands over is a forced keyframe or starts an encoder, and so it is whether the
-- picture changed or not.
pub tick_due :
    (m : ℕ) (l : Loop) (now : ℕ) (size : Size) (changed painted scaler : Bool)
    → has_passed keyframe_min_interval l.last_forced now ≡ true
    → (is_some (fitting size l.conv) || is_some (new_converter m size scaler)) ≡ true
    → makes_keyframe (tick m l true now (picture size changed painted scaler)) ≡ true
unfolding tick
tick_due m l now size changed painted scaler h k =
    due_convert (resumed l) m now size changed painted scaler (fitting size (resumed l).conv)
      (subst (λ t. has_passed keyframe_min_interval t now ≡ true) (sym (same_forced l)) h)
      (subst (λ c. (is_some (fitting size c) || is_some (new_converter m size scaler)) ≡ true)
        (sym (same_conv l)) k)
  where
    same_forced : (k : Loop) → (resumed k).last_forced ≡ k.last_forced
    same_forced k = ground arith

    same_conv : (k : Loop) → (resumed k).conv ≡ k.conv
    same_conv k = ground arith
