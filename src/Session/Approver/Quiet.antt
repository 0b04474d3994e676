-- ===== src/Session/Approver/Quiet.antt =====
-- session/coordinator.go: when the operator is asked, read off the questions so far.
use freedesk.Prelude.{
  ℕ, zero, suc, ◌+◌, ◌*◌, ◌^◌, ◌%◌, ◌≤◌, ◌<◌, ◌≡◌, ◌↔◌, refl, ap, ◌∙◌, min, max, Bool, true, false,
  ◌||◌, List, [], ◌∷◌, if◌then◌else◌, ltb, leb, arith, is_some, Bool-cases, inl, inr,
}
use native.Mathlib.Nat.{pow-suc, one-le-pow}
use freedesk.Session.Approver.{
  Answer, refused, allowed, unanswered, is_ok, FileApprover, new_approver, is_quiet, is_before,
  settle, Offer, ask_files, ask_all, note_connect_outcome, note_all, approves,
  max_unanswered_prompts, refusal_backoff_min, refusal_backoff_max, count_missed,
}

-- How many of the last questions got no yes, in a row, and how many got no answer.
abbrev pub refusals : List Offer → ℕ
refusals [] = 0
refusals (o ∷ os) = if is_ok o.answer then 0 else suc (refusals os)

abbrev pub silences : List Offer → ℕ
silences [] = 0
silences (o ∷ os) = count_missed o.answer (silences os)

-- The quiet after the n-th refusal in a row: ten seconds, twice as long each time, five minutes at most.
abbrev pub gap : ℕ → ℕ
gap zero = 0
gap (suc n) = min (refusal_backoff_min * 2 ^ n) refusal_backoff_max

-- The last question was a yes, or its answer is long enough ago.
abbrev pub IsRested : List Offer → ℕ → Type 0
IsRested [] now = Unit
IsRested (o ∷ os) now = is_ok o.answer ≡ false → o.answered_at + gap (refusals (o ∷ os)) ≤ now

-- The approver, against the questions so far.
record Recalls (a : FileApprover) (put : List Offer) : Type 0 where
  missed : a.missed ≡ silences put
  backoff : a.backoff ≡ gap (refusals put)
  quiet : (now : ℕ) → (is_before now a.quiet_until ≡ false) ↔ IsRested put now

next_gap : (n : ℕ) → min (max (2 * gap n) refusal_backoff_min) refusal_backoff_max ≡ gap (suc n)
next_gap zero = refl
next_gap (suc n) = omega (arith, pow-suc 2 n, one-le-pow n 2 (omega arith))

not_before : (now t : ℕ) → ltb now t ≡ false → t ≤ now
not_before now t h = ground arith

is_over : (now t : ℕ) → t ≤ now → ltb now t ≡ false
is_over now t h = ground arith

module _ (a : FileApprover) (o : Offer) (put : List Offer) (r : Recalls a put) where
  settle_yes : is_ok o.answer ≡ true → Recalls (settle a o.answer o.answered_at) (o ∷ put)
  settle_yes e = rw e (record {
    missed = ap (count_missed o.answer) r.missed;
    backoff = rw e refl;
    quiet = λ now. ((λ _ no_yes. absurd (cc)), λ _. refl);
  })

  settle_no : is_ok o.answer ≡ false → Recalls (settle a o.answer o.answered_at) (o ∷ put)
  settle_no e =
      let backoff =
        ap (λ b. min (max (2 * b) refusal_backoff_min) refusal_backoff_max) r.backoff
        ∙ next_gap (refusals put) in
      rw e (record {
        missed = ap (count_missed o.answer) r.missed;
        backoff = rw e backoff;
        quiet = λ now. (
          (λ passed _. rw (e, ← backoff) (not_before now _ passed)),
          (λ rested. is_over now _ (rw (e, ← backoff) at (rested e))),
        );
      })

settle-Recalls :
    (a : FileApprover) (o : Offer) (put : List Offer)
    → Recalls a put
    → Recalls (settle a o.answer o.answered_at) (o ∷ put)
settle-Recalls a o put r = elim (Bool-cases (is_ok o.answer)) [
  | inl e ↦ settle_yes a o put r e
  | inr e ↦ settle_no a o put r e
]

ask_all-Recalls :
    (a : FileApprover) (put os : List Offer)
    → Recalls a put
    → Recalls (ask_all a put os).0 (ask_all a put os).1
unfolding ask_all ask_files
ask_all-Recalls a put [] r = r
ask_all-Recalls a put (o ∷ os) r = elim (Bool-cases (is_quiet a o.at)) [
  | inl e ↦ rw (ask_all, e) (ask_all-Recalls a put os r)
  | inr e ↦
      rw (ask_all, e)
        (ask_all-Recalls (settle a o.answer o.answered_at) (o ∷ put) os (settle-Recalls a o put r))
]

quiet_iff :
    (a : FileApprover) (put : List Offer) (now : ℕ)
    → Recalls a put
    → (is_quiet a now ≡ false) ↔ ((silences put < max_unanswered_prompts) × IsRested put now)
unfolding is_quiet
quiet_iff a put now r = (forth, back)
  where
    forth :
        (leb max_unanswered_prompts a.missed || is_before now a.quiet_until) ≡ false
        → (silences put < max_unanswered_prompts) × IsRested put now
    forth h = (ground (arith, r.missed), (r.quiet now).0 (ground arith))

    back :
        (silences put < max_unanswered_prompts) × IsRested put now
        → (leb max_unanswered_prompts a.missed || is_before now a.quiet_until) ≡ false
    back (few, rested) = ground (arith, r.missed, (r.quiet now).1 rested)

-- After any offers of a session, at any times and with any answers: the next offer is put to the operator
-- exactly if fewer than three questions in a row, up to now, went unanswered, and, if the
-- last one got no yes, the quiet after it is over, which is ten seconds after the first
-- refusal in a row, twice as long after each further one, and five minutes at most. It is approved
-- only if it is put and the operator says yes.
pub ask_files_iff :
    (os : List Offer) (o : Offer)
    → let (a, put) = ask_all new_approver [] os in
      let said = (ask_files a o).1 in
      ((is_some said ≡ true) ↔ ((silences put < max_unanswered_prompts) × IsRested put o.at))
      × ((approves said ≡ true) ↔ ((is_some said ≡ true) × (o.answer ≡ allowed)))
unfolding ask_files
ask_files_iff os o =
    let (a, put) = ask_all new_approver [] os in
    let recalls = ask_all-Recalls new_approver [] os nothing_put in
    let iff = quiet_iff a put o.at recalls in
    elim (Bool-cases (is_quiet a o.at)) [
      | inl e ↦ rw e (
        ((λ h. absurd (cc)), (λ h. absurd (shut e (iff.1 h)))),
        ((λ h. absurd (cc)), (λ h. absurd (shut h.0 refl))),
      )
      | inr e ↦
          rw e
            (((λ _. iff.0 e), (λ _. refl)), ((λ h. (refl, is_yes o.answer h)), (λ h. ap is_ok h.1)))
    ]
  where
    nothing_put : Recalls new_approver []
    nothing_put = record { missed = refl; backoff = refl; quiet = λ now. ((λ _. tt), (λ _. refl)) }

    shut : {b : Bool} → b ≡ true → b ≡ false → ⊥
    shut h k = cc

    is_yes : (x : Answer) → is_ok x ≡ true → x ≡ allowed
    is_yes refused h = cc
    is_yes allowed h = refl
    is_yes unanswered h = cc

-- The outcomes without a yes at the end of a list, after `n` of them.
abbrev pub trailing : ℕ → List Bool → ℕ
trailing n [] = n
trailing n (true ∷ bs) = trailing 0 bs
trailing n (false ∷ bs) = trailing (n + 1) bs

note_all-trailing : (n k : ℕ) (bs : List Bool) → n ≡ k % 3 → note_all n bs ≡ trailing k bs % 3
unfolding note_all note_connect_outcome
note_all-trailing n k [] h = h
note_all-trailing n k (true ∷ bs) h = note_all-trailing 0 0 bs refl
note_all-trailing n k (false ∷ bs) h = elim (Bool-cases (ltb (n + 1) 3)) [
  | inl less ↦ rw less (note_all-trailing (n + 1) (k + 1) bs (ground arith))
  | inr full ↦ rw full (note_all-trailing 0 (k + 1) bs (ground arith))
]

-- After any connection prompts, the next is reported exactly if it ends without a yes and is the third, the
-- sixth, and so on, of those in a row that did.
pub note_connect_outcome_iff :
    (bs : List Bool) (approved : Bool)
    → ((note_connect_outcome (note_all 0 bs) approved).1 ≡ true)
      ↔ ((approved ≡ false) × ((trailing 0 bs + 1) % 3 ≡ 0))
unfolding note_connect_outcome
note_connect_outcome_iff bs true = ground arith
note_connect_outcome_iff bs false =
    let e = note_all-trailing 0 0 bs refl in
    ((λ h. (refl, ground (arith, e))), (λ h. ground (arith, e, h.1)))
