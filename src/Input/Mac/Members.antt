-- ===== src/Input/Mac/Members.antt =====
-- input/inject_darwin.go: the keys and buttons that are noted as held.
use freedesk.Prelude.{
  ℕ, ◌≡◌, refl, subst, ◌∙◌, Bool, true, false, not, ◌&&◌, ◌||◌, List, [], ◌∷◌, if◌then◌else◌, ◌==◌,
  arith, Bool-cases, inl, inr, ltb,
}
use freedesk.Input.{Buttons}
use freedesk.Input.Keycodes.{kvk_caps_lock, is_modifier}
use freedesk.Input.Mac.{
  Env, CgInput, Posted, key, ask, may_post, post, flags, release_held_keys, press_plain, member,
  insert_code, delete_code,
}

same_member : (k kc : ℕ) (ks : List ℕ) → kc ≡ k → member kc ks ≡ true → member k ks ≡ true
same_member k kc ks e h = subst (λ c. member c ks ≡ true) e h

member-insert : (k kc : ℕ) (ks : List ℕ) → member k (insert_code kc ks) ≡ (kc == k || member k ks)
unfolding member insert_code
member-insert k kc ks = elim (Bool-cases (member kc ks)) [
  | inl e ↦ rw e (ground (arith, same_member k kc ks))
  | inr e ↦ rw e refl
]

member-delete :
    (k kc : ℕ) (ks : List ℕ) → member k (delete_code kc ks) ≡ (not (kc == k) && member k ks)
unfolding member delete_code
member-delete k kc [] = ground arith
member-delete k kc (c ∷ ks) = ground (arith, member-delete k kc ks)

-- What two states hold alike.
abbrev pub Holds : CgInput → List ℕ → List ℕ → Buttons → Type 0
Holds i mods keys buttons = (i.mods ≡ mods) × (i.keys ≡ keys) × (i.buttons ≡ buttons)

pub post-Holds :
    (env : Env) (i : CgInput) (p : Posted) → Holds (post env i p).0 i.mods i.keys i.buttons
unfolding post may_post ask
post-Holds env i p = elim (Bool-cases (ltb env.now i.next_ask)) [
  | inl e ↦ rw e (refl, refl, refl)
  | inr e ↦ rw e (answered env.allowed)
]
  where
    answered : (answer : Bool) → Holds (ask env.now i answer).0 i.mods i.keys i.buttons
    answered true = (refl, refl, refl)
    answered false = (refl, refl, refl)

pub release-Holds :
    (env : Env) (i : CgInput) (ks : List ℕ)
    → Holds (release_held_keys env i ks).0 i.mods [] i.buttons
unfolding release_held_keys
release-Holds env i [] = (refl, refl, refl)
release-Holds env i (kc ∷ ks) =
    let j : CgInput = record i { keys = ks } in
    let p = key kc false false (flags i) in
    let (m, _, b) = post-Holds env j p in
    let (m', k', b') = release-Holds env (post env j p).0 ks in (m' ∙ m, k', b' ∙ b)

-- Modifiers and other keys are noted apart, and Caps Lock in neither.
abbrev pub is_plain : ℕ → Bool
is_plain k = not (is_modifier k || k == kvk_caps_lock)

abbrev pub IsLegal : CgInput → Type 0
IsLegal i =
    ((k : ℕ) → member k i.mods ≡ true → is_modifier k ≡ true)
    × ((k : ℕ) → member k i.keys ≡ true → is_plain k ≡ true)

-- What is held after a key goes down or up was held before, but for that key.
abbrev pub Follows : CgInput → CgInput → ℕ → Bool → Type 0
Follows i' i kc down =
    ((k : ℕ) → member k i'.mods ≡ true → (if kc == k then down else member k i.mods) ≡ true)
    × ((k : ℕ) → member k i'.keys ≡ true → (if kc == k then down else member k i.keys) ≡ true)
    × (i'.buttons ≡ i.buttons)

-- A state that holds these lists.
pub of_Holds :
    (i i' : CgInput) (mods keys : List ℕ) (kc : ℕ) (down : Bool)
    → Holds i' mods keys i.buttons
    → IsLegal (record i { mods = mods; keys = keys })
    → Follows (record i { mods = mods; keys = keys }) i kc down
    → Follows i' i kc down × IsLegal i'
of_Holds i i' mods keys kc down h legal f = (
  (λ k m. f.0 k (rw h.0 at m), λ k m. f.1 k (rw h.1 at m), h.2),
  (λ k m. legal.0 k (rw h.0 at m), λ k m. legal.1 k (rw h.1 at m)),
)

pub same_code : (kc k : ℕ) → (kc == k) ≡ true → kc ≡ k
same_code kc k e = ground arith

-- What a test tells of one key and not of another tells them apart.
apart : (p : ℕ → Bool) (kc k : ℕ) → p k ≡ true → p kc ≡ false → (kc == k) ≡ false
apart p kc k a b = elim (Bool-cases (kc == k)) [
  | inl e ↦ let same = same_code kc k e in cc
  | inr e ↦ e
]

-- A list that the key is not in.
pub apart_Follows :
    (p : ℕ → Bool) (kc : ℕ) (v : Bool) (ks : List ℕ)
    → ((k : ℕ) → member k ks ≡ true → p k ≡ true)
    → p kc ≡ false
    → (k : ℕ) → member k ks ≡ true
    → (if kc == k then v else member k ks) ≡ true
apart_Follows p kc v ks all n k m = rw (apart p kc k (all k m) n) m

pub inserted :
    (p : ℕ → Bool) (kc : ℕ) (ks : List ℕ)
    → ((k : ℕ) → member k ks ≡ true → p k ≡ true)
    → p kc ≡ true
    → (k : ℕ) → member k (insert_code kc ks) ≡ true
    → p k ≡ true
inserted p kc ks all y k m = elim (Bool-cases (kc == k)) [
  | inl e ↦ subst (λ c. p c ≡ true) (same_code kc k e) y
  | inr n ↦ all k (ground (arith, member-insert k kc ks))
]

pub deleted : (kc k : ℕ) (ks : List ℕ) → member k (delete_code kc ks) ≡ true → member k ks ≡ true
deleted kc k ks m = ground (arith, member-delete k kc ks)

pub inserted_Follows :
    (kc k : ℕ) (ks : List ℕ)
    → member k (insert_code kc ks) ≡ true
    → (if kc == k then true else member k ks) ≡ true
inserted_Follows kc k ks m = ground (arith, member-insert k kc ks)

pub deleted_Follows :
    (kc k : ℕ) (ks : List ℕ)
    → member k (delete_code kc ks) ≡ true
    → (if kc == k then false else member k ks) ≡ true
deleted_Follows kc k ks m = ground (arith, member-delete k kc ks)

pub press_plain-Follows :
    (env : Env) (i : CgInput) (kc : ℕ) (down : Bool)
    → is_plain kc ≡ true
    → is_modifier kc ≡ false
    → IsLegal i
    → let i' = (press_plain env i kc down).0 in Follows i' i kc down × IsLegal i'
unfolding press_plain
press_plain-Follows env i kc true y n legal =
    let j : CgInput = record i { keys = insert_code kc i.keys } in
    of_Holds i (press_plain env i kc true).0 i.mods (insert_code kc i.keys) kc true
      (post-Holds env j (key kc true (member kc i.keys) (flags j)))
      (legal.0, inserted is_plain kc i.keys legal.1 y)
      (apart_Follows is_modifier kc true i.mods legal.0 n, λ k. inserted_Follows kc k i.keys, refl)
press_plain-Follows env i kc false y n legal =
    let j : CgInput = record i { keys = delete_code kc i.keys } in
    of_Holds i (press_plain env i kc false).0 i.mods (delete_code kc i.keys) kc false
      (post-Holds env j (key kc false false (flags j)))
      (legal.0, λ k m. legal.1 k (deleted kc k i.keys m))
      (apart_Follows is_modifier kc false i.mods legal.0 n, λ k. deleted_Follows kc k i.keys, refl)
