-- ===== src/Pairing/Published.antt =====
-- cmd/host/main.go: rotateCode, and that the machine stays published under the code that is shown.
use freedesk.Prelude.{
  ℕ, zero, suc, ◌+◌, ◌≡◌, refl, ◌∙◌, sym, ap, subst, Bool, true, false, not, ◌||◌, ◌&&◌, List, [],
  ◌∷◌, Option, none, some, Text, any, eq_text, eq_text_iff, if◌then◌else◌, arith, Bool-cases, inl,
  inr,
}
use freedesk.Pairing.{
  new_pairing_code, format_pairing_code, Outcome, published, denied, failed, Draws,
  register_attempts, has_record, put_record, delete_record, end_attempt, register_with_fresh_code,
  Agent, update_served, retire, switch_to, rotate_code, rotations, first_agent, start,
}

has_record-put_record :
    (k code : Text) (records : List Text)
    → has_record (put_record code records) k ≡ (eq_text code k || has_record records k)
unfolding put_record has_record
has_record-put_record k code records = elim (Bool-cases (any (λ c. eq_text c code) records)) [
  | inl e ↦ elim (Bool-cases (eq_text code k)) [
    | inl s ↦
        rw (e, s) (subst (λ t. any (λ c. eq_text c t) records ≡ true) ((eq_text_iff code k).0 s) e)
    | inr s ↦ rw (e, s) refl
  ]
  | inr e ↦ rw e refl
]

has_record-delete_record :
    (k code : Text) (records : List Text)
    → has_record (delete_record code records) k ≡ (not (eq_text code k) && has_record records k)
unfolding delete_record has_record
has_record-delete_record k code [] = ground arith
has_record-delete_record k code (c ∷ records) = elim (Bool-cases (eq_text c code)) [
  | inl s ↦
      rw (s, (eq_text_iff c code).0 s, has_record-delete_record k code records)
        (absorbed (eq_text code k) (any (λ d. eq_text d k) records))
  | inr s ↦ elim (Bool-cases (eq_text code k)) [
    | inl e ↦
        let other : eq_text c k ≡ false =
          subst (λ t. eq_text c t ≡ false) ((eq_text_iff code k).0 e) s in
        rw (s, has_record-delete_record k code records, e, other) refl
    | inr e ↦ rw (s, has_record-delete_record k code records, e) refl
  ]
]
  where
    absorbed : (x y : Bool) → (not x && y) ≡ (not x && (x || y))
    absorbed true y = refl
    absorbed false y = refl

own_record : (code : Text) (records : List Text) → has_record (put_record code records) code ≡ true
own_record code records =
    let same : eq_text code code ≡ true = (eq_text_iff code code).1 refl in
    has_record-put_record code code records ∙ ap (λ b. b || has_record records code) same

some_same : (a b : Text) → some a ≡ some b → a ≡ b
some_same a b e = cc

-- What registerWithFreshCode does to the records, and what it returns.
abbrev Registered : Draws → List Text → List Text × Option Text → Type 0
Registered draws records (records', o) =
    ((k : Text) → has_record records k ≡ true → has_record records' k ≡ true)
    × ((code : Text)
        → o ≡ some code
        → (has_record records' code ≡ true)
          × ((i : ℕ) × (n : ℕ) × (draws i ≡ some (n, published)) × (code ≡ new_pairing_code n)))

register-Registered :
    (left : ℕ) (draws : Draws) (i : ℕ) (records : List Text)
    → Registered draws records (register_with_fresh_code left draws i records)
unfolding register_with_fresh_code
register-Registered zero draws i records = (λ k h. h, λ code e. absurd (cc))
register-Registered (suc left) draws i records =
    ended (draws i) refl (register_with_fresh_code left draws (i + 1) records)
      (register-Registered left draws (i + 1) records)
  where
    ended :
        (d : Option (ℕ × Outcome))
        → draws i ≡ d
        → (again : List Text × Option Text) → Registered draws records again
        → Registered draws records (end_attempt records d again)
    ended none e again h = (λ k r. r, λ code f. absurd (cc))
    ended (some (n, published)) e again h = (
      λ k r. ground (arith, has_record-put_record k (new_pairing_code n) records),
      λ code f.
          let same : new_pairing_code n ≡ code = some_same (new_pairing_code n) code f in
          (
            subst (λ t. has_record (put_record (new_pairing_code n) records) t ≡ true) same
                (own_record (new_pairing_code n) records),
            (i, n, e, sym same),
          ),
    )
    ended (some (n, denied)) e again h = h
    ended (some (n, failed true)) e again h = (
      λ k r. ground (arith, has_record-put_record k (new_pairing_code n) records),
      λ code f. absurd (cc),
    )
    ended (some (n, failed false)) e again h = (λ k r. r, λ code f. absurd (cc))

-- The code has a record, is what the local API answers with, if there is one, and is what the operator
-- reads.
abbrev pub IsPublished : Agent → Type 0
IsPublished a =
    (has_record a.records a.code ≡ true)
    × ((served : Text) → a.served ≡ some served → served ≡ a.code)
    × (a.shown ≡ format_pairing_code a.code)

-- No code that is drawn is the one in use.
abbrev pub IsFresh : Draws → Agent → Type 0
IsFresh draws a =
    (i : ℕ) (n : ℕ) (o : Outcome)
    → draws i ≡ some (n, o)
    → eq_text a.code (new_pairing_code n) ≡ false

abbrev pub AllFresh : List (Draws × Bool) → Agent → Type 0
AllFresh [] a = Unit
AllFresh ((draws, removed) ∷ more) a = IsFresh draws a × AllFresh more (rotate_code draws removed a)

still_there :
    (removed : Bool) (old code : Text) (records : List Text)
    → eq_text old code ≡ false
    → has_record records code ≡ true
    → has_record (retire removed old records) code ≡ true
still_there true old code records n h = rw (has_record-delete_record code old records, n) h
still_there false old code records n h = h

served_is :
    (o : Option Text) (code served : Text) → update_served code o ≡ some served → served ≡ code
served_is none code served e = absurd (cc)
served_is (some old) code served e = cc

switch_to-IsPublished :
    (draws : Draws) (removed : Bool) (a : Agent) (r : List Text × Option Text)
    → Registered draws a.records r
    → IsFresh draws a
    → IsPublished a
    → IsPublished (switch_to a removed r)
switch_to-IsPublished draws removed a (records, none) h f p = (h.0 a.code p.0, p.1, p.2)
switch_to-IsPublished draws removed a (records, some code) h f p =
    let (there, drawn) = h.1 code refl in
    let (i, n, d, c) = drawn in
    let other : eq_text a.code code ≡ false =
      subst (λ t. eq_text a.code t ≡ false) (sym c) (f i n published d) in
    (
      still_there removed a.code code records other there,
      λ served e. served_is a.served code served e,
      refl,
    )

rotate_code-IsPublished :
    (draws : Draws) (removed : Bool) (a : Agent)
    → IsFresh draws a
    → IsPublished a
    → IsPublished (rotate_code draws removed a)
unfolding rotate_code
rotate_code-IsPublished draws removed a f p =
    switch_to-IsPublished draws removed a _
      (register-Registered register_attempts draws 1 a.records) f p

rotations-IsPublished :
    (rs : List (Draws × Bool)) (a : Agent)
    → AllFresh rs a
    → IsPublished a
    → IsPublished (rotations rs a)
unfolding rotations
rotations-IsPublished [] a f p = p
rotations-IsPublished ((draws, removed) ∷ rs) a f p =
    rotations-IsPublished rs (rotate_code draws removed a) f.1
      (rotate_code-IsPublished draws removed a f.0 p)

some_agent : (a b : Agent) → some a ≡ some b → a ≡ b
some_agent a b e = cc

first-IsPublished :
    (draws : Draws) (has_api : Bool) (r : List Text × Option Text) (a : Agent)
    → Registered draws [] r
    → first_agent has_api r ≡ some a
    → IsPublished a
first-IsPublished draws has_api (records, none) a h e = absurd (cc)
first-IsPublished draws has_api (records, some code) a h e =
    subst IsPublished (some_agent _ a e)
      ((h.1 code refl).0, λ served f. only has_api code served f, refl)
  where
    only :
        (has_api : Bool) (code served : Text)
        → (if has_api then some code else none) ≡ some served
        → served ≡ code
    only true code served f = cc
    only false code served f = absurd (cc)

-- A rotation that draws the code in use, publishes it, and then removes the old record: the machine
-- keeps that code, and it has no record.
pub drawn_again :
    (again : Draws) (n : ℕ) (a : Agent)
    → again 1 ≡ some (n, published)
    → new_pairing_code n ≡ a.code
    → let b = rotate_code again true a in (b.code ≡ a.code) × (has_record b.records b.code ≡ false)
unfolding rotate_code register_with_fresh_code
drawn_again again n a d same = rw d (
  same,
  has_record-delete_record (new_pairing_code n) a.code (put_record (new_pairing_code n) a.records)
      ∙ ap
          (λ b.
            not b && has_record (put_record (new_pairing_code n) a.records) (new_pairing_code n))
          ((eq_text_iff a.code (new_pairing_code n)).1 (sym same)),
)

-- After a start that succeeds and any rotations, whatever is drawn and whatever becomes of the requests, as
-- long as no code that is drawn is the one in use: the machine is published under its code, which is
-- what the local API answers with and what the operator reads.
pub rotations-start-IsPublished :
    (draws : Draws) (has_api : Bool) (a : Agent) (rs : List (Draws × Bool))
    → start draws has_api ≡ some a
    → AllFresh rs a
    → IsPublished (rotations rs a)
unfolding start
rotations-start-IsPublished draws has_api a rs e f =
    rotations-IsPublished rs a f
      (first-IsPublished draws has_api _ a (register-Registered register_attempts draws 1 []) e)
