-- ===== src/Pairing.antt =====
-- host-agent/cmd/host/main.go and internal/host/registrar.go: the code that the machine is published
-- under, and its rotation. A code is drawn as a number below a million, and what becomes of a request
-- to the database comes with it.
pub mod Published
pub mod Heartbeat
mod Examples
use freedesk.Prelude.{
  ℕ, zero, suc, ◌+◌, ◌/◌, ◌%◌, ◌^◌, Bool, true, false, not, List, [], ◌∷◌, ◌++◌, Option, none, some,
  Text, text, any, eq_text, length, take, drop, if◌then◌else◌, ◌==◌,
}

abbrev pub pairing_code_digits : ℕ
pairing_code_digits = 6

-- The last digits of a number, `%0*d` of one that has no more.
unfoldable pub padded : (digits n : ℕ) → Text
padded zero n = []
padded (suc digits) n = let rest = padded digits (n / 10) in rest ++ ((n % 10 + b'0') ∷ [])

unfoldable pub new_pairing_code : ℕ → Text
unfolding padded
new_pairing_code n = padded pairing_code_digits (n % 10 ^ pairing_code_digits)

unfoldable pub format_pairing_code : Text → Text
format_pairing_code code =
    if not (length code == pairing_code_digits)
    then code
    else take 3 code ++ (text " - " ++ drop 3 code)

-- How Register ends. A request that fails may have been carried out all the same.
pub data Outcome : Type 0 where
  published : Outcome
  denied : Outcome
  failed : (stored : Bool) → Outcome

-- The number that is drawn, absent where the system gives none, and what becomes of the request.
abbrev pub Draws : Type 0
Draws = ℕ → Option (ℕ × Outcome)

abbrev pub register_attempts : ℕ
register_attempts = 3

unfoldable pub has_record : List Text → Text → Bool
has_record records code = any (λ c. eq_text c code) records

unfoldable pub put_record : Text → List Text → List Text
unfolding has_record
put_record code records = if has_record records code then records else code ∷ records

-- Unregister, carried out.
unfoldable pub delete_record : Text → List Text → List Text
delete_record code [] = []
delete_record code (c ∷ records) =
    let rest = delete_record code records in if eq_text c code then rest else c ∷ rest

-- The machine's own records, and the code that one was published under.
abbrev pub end_attempt :
    List Text → Option (ℕ × Outcome) → (again : List Text × Option Text) → List Text × Option Text
end_attempt records none again = (records, none)
end_attempt records (some (n, published)) again =
    let code = new_pairing_code n in (put_record code records, some code)
end_attempt records (some (n, denied)) again = again
end_attempt records (some (n, failed stored)) again =
    (if stored then put_record (new_pairing_code n) records else records, none)

-- registerWithFreshCode, from attempt `i` on; after the last one that is denied it gives up.
unfoldable pub register_with_fresh_code :
    (left : ℕ) → Draws → (i : ℕ) → List Text → List Text × Option Text
unfolding put_record new_pairing_code
register_with_fresh_code zero draws i records = (records, none)
register_with_fresh_code (suc left) draws i records =
    end_attempt records (draws i) (register_with_fresh_code left draws (i + 1) records)

-- `served` is what the local API answers with, absent where there is none.
pub record Agent : Type 0 where
  pub records : List Text
  pub code : Text
  pub served : Option Text
  pub shown : Text

abbrev pub update_served : Text → Option Text → Option Text
update_served code none = none
update_served code (some old) = some code

abbrev pub retire : (removed : Bool) → Text → List Text → List Text
retire removed old records = if removed then delete_record old records else records

abbrev pub switch_to : Agent → (removed : Bool) → List Text × Option Text → Agent
switch_to a removed (records, none) = record a { records = records }
switch_to a removed (records, some fresh) = record {
  records = retire removed a.code records;
  code = fresh;
  served = update_served fresh a.served;
  shown = format_pairing_code fresh;
}

-- rotateCode. `removed`: what becomes of the old record.
unfoldable pub rotate_code : Draws → (removed : Bool) → Agent → Agent
unfolding register_with_fresh_code delete_record format_pairing_code
rotate_code draws removed a =
    switch_to a removed (register_with_fresh_code register_attempts draws 1 a.records)

unfoldable pub rotations : List (Draws × Bool) → Agent → Agent
rotations [] a = a
rotations ((draws, removed) ∷ more) a = rotations more (rotate_code draws removed a)

abbrev pub first_agent : (has_api : Bool) → List Text × Option Text → Option Agent
first_agent has_api (records, none) = none
first_agent has_api (records, some code) = some (record {
  records = records;
  code = code;
  served = if has_api then some code else none;
  shown = format_pairing_code code;
})

-- The start of `run`; absent where it fails.
unfoldable pub start : Draws → (has_api : Bool) → Option Agent
unfolding register_with_fresh_code format_pairing_code
start draws has_api = first_agent has_api (register_with_fresh_code register_attempts draws 1 [])

-- What the operator is told of the connection to the service.
pub data Report : Type 0 where
  lost back : Report

-- runHeartbeat, of whether each beat fails.
unfoldable pub run_heartbeat : (down : Bool) → (fails : List Bool) → List Report
run_heartbeat down [] = []
run_heartbeat false (true ∷ beats) = lost ∷ run_heartbeat true beats
run_heartbeat true (true ∷ beats) = run_heartbeat true beats
run_heartbeat true (false ∷ beats) = back ∷ run_heartbeat false beats
run_heartbeat false (false ∷ beats) = run_heartbeat false beats
