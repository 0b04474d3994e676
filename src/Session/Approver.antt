-- ===== src/Session/Approver.antt =====
-- host-agent/internal/session/coordinator.go: how often the operator is asked. Times are nanoseconds.
pub mod Quiet
use freedesk.Prelude.{
  ℕ, zero, suc, ◌+◌, ◌*◌, min, max, Bool, true, false, not, ◌||◌, List, [], ◌∷◌, Option, none, some,
  if◌then◌else◌, ltb, leb, ◌==◌,
}

-- consent.Answer
pub data Answer : Type 0 where
  refused allowed unanswered : Answer

abbrev pub is_ok : Answer → Bool
is_ok refused = false
is_ok allowed = true
is_ok unanswered = false

abbrev pub max_unanswered_prompts : ℕ
max_unanswered_prompts = 3

-- Ten seconds, five minutes.
abbrev pub refusal_backoff_min : ℕ
refusal_backoff_min = 10000000000

abbrev pub refusal_backoff_max : ℕ
refusal_backoff_max = 300000000000

-- `quiet_until` is absent where Go has its zero time.
pub record FileApprover : Type 0 where
  pub missed : ℕ
  pub quiet_until : Option ℕ
  pub backoff : ℕ

abbrev pub new_approver : FileApprover
new_approver = record { missed = 0; quiet_until = none; backoff = 0 }

abbrev pub is_before : ℕ → Option ℕ → Bool
is_before now none = false
is_before now (some t) = ltb now t

unfoldable pub is_quiet : FileApprover → ℕ → Bool
is_quiet a now = leb max_unanswered_prompts a.missed || is_before now a.quiet_until

abbrev pub count_missed : Answer → ℕ → ℕ
count_missed refused n = 0
count_missed allowed n = 0
count_missed unanswered n = n + 1

abbrev pub settle : FileApprover → Answer → ℕ → FileApprover
settle a answer now =
    let missed = count_missed answer a.missed in
    let backoff = min (max (2 * a.backoff) refusal_backoff_min) refusal_backoff_max in
    if is_ok answer
    then record { missed = missed; quiet_until = none; backoff = 0 }
    else record { missed = missed; quiet_until = some (now + backoff); backoff = backoff }

-- An offer of files: when it comes, what the operator says if asked, and when that is.
pub record Offer : Type 0 where
  pub at : ℕ
  pub answer : Answer
  pub answered_at : ℕ

-- The approver after AskFiles, and what it returned: nothing where the operator was not asked.
unfoldable pub ask_files : FileApprover → Offer → FileApprover × Option Answer
ask_files a o =
    if is_quiet a o.at then (a, none) else (settle a o.answer o.answered_at, some o.answer)

-- `AskFiles` returns a Boolean.
abbrev pub approves : Option Answer → Bool
approves none = false
approves (some answer) = is_ok answer

abbrev pub put_on : Option Answer → Offer → List Offer → List Offer
put_on none o put = put
put_on (some answer) o put = o ∷ put

-- The offers of a session, one after the other, and the questions that were put, the last first.
unfoldable pub ask_all : FileApprover → List Offer → List Offer → FileApprover × List Offer
ask_all a put [] = (a, put)
ask_all a put (o ∷ os) = let (a', said) = ask_files a o in ask_all a' (put_on said o put) os

abbrev pub max_unapproved_connects : ℕ
max_unapproved_connects = 3

-- The count of unapproved connects after noteConnectOutcome, and what it returns.
unfoldable pub note_connect_outcome : ℕ → Bool → ℕ × Bool
note_connect_outcome n true = (0, false)
note_connect_outcome n false =
    if ltb (n + 1) max_unapproved_connects then (n + 1, false) else (0, true)

unfoldable pub note_all : ℕ → List Bool → ℕ
note_all n [] = n
note_all n (b ∷ bs) = note_all (note_connect_outcome n b).0 bs
