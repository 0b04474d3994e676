-- ===== src/Session/Inbox/Memory.antt =====
-- session/inbox.go: what the inbox remembers of what it read.
use freedesk.Prelude.{
  ℕ, ◌+◌, ◌*◌, ◌≤◌, ◌≡◌, Bool, true, ◌&&◌, ◌||◌, [], ◌∷◌, Text, ℤ, pos, negsuc, ltb, any, All,
  eq_text, eq_text_iff, arith, Bool-cases, inl, inr,
}
use mathlib.Core.Path.{subst}
use freedesk.Session.Inbox.{Seen, has_id, forget, is_stale, stale_request_age}

-- An entry was created before it was first read, by the host's clock.
abbrev pub CreatedBy : ℤ → ℕ → Type 0
CreatedBy (ℤ.pos ms) at = ms * 1000000 ≤ at
CreatedBy (ℤ.negsuc ms) at = Unit

-- Some turn of the id was so long ago that it is forgotten.
abbrev pub is_old : Text → ℕ → Seen → Bool
is_old id now seen = any (λ p. eq_text p.0 id && ltb (p.1 + stale_request_age) now) seen

-- What the inbox remembers, against all that it read.
pub record Remembers (seen past : Seen) (now : ℕ) : Type 0 where
  pub read : (id : Text) → has_id id seen ≡ true → has_id id past ≡ true
  pub old : (id : Text) (at : ℕ) → is_old id at seen ≡ true → is_old id at past ≡ true
  pub kept : (id : Text) → has_id id past ≡ true → (has_id id seen || is_old id now past) ≡ true

has-forget :
    (id : Text) (now : ℕ) (seen : Seen) → has_id id (forget now seen) ≡ true → has_id id seen ≡ true
unfolding forget
has-forget id now [] h = h
has-forget id now ((k, at) ∷ seen) h = ground (arith, has-forget id now seen)

forget_old :
    (id : Text) (now : ℕ) (seen : Seen)
    → has_id id seen ≡ true
    → (has_id id (forget now seen) || is_old id now seen) ≡ true
unfolding forget
forget_old id now [] h = cc
forget_old id now ((k, at) ∷ seen) h = ground (arith, forget_old id now seen)

old-forget :
    (id : Text) (at now : ℕ) (seen : Seen)
    → is_old id at (forget now seen) ≡ true
    → is_old id at seen ≡ true
unfolding forget
old-forget id at now [] h = h
old-forget id at now ((k, a) ∷ seen) h = ground (arith, old-forget id at now seen)

old_later :
    (id : Text) (a b : ℕ) (seen : Seen) → a ≤ b → is_old id a seen ≡ true → is_old id b seen ≡ true
old_later id a b [] l h = h
old_later id a b ((k, at) ∷ seen) l h = ground (arith, old_later id a b seen l)

pub old_stale :
    (id : Text) (now : ℕ) (created : ℤ) (past : Seen)
    → All (λ p. eq_text p.0 id ≡ true → CreatedBy created p.1) past
    → is_old id now past ≡ true
    → is_stale now created ≡ true
old_stale id now created [] all h = cc
old_stale id now (ℤ.pos ms) ((k, at) ∷ past) all h =
    elim (Bool-cases (eq_text k id && ltb (at + stale_request_age) now)) [
      | inl e ↦ let before = all.0 (ground arith) in ground arith
      | inr n ↦ old_stale id now (pos ms) past all.1 (rw n at h)
    ]
old_stale id now (ℤ.negsuc ms) ((k, at) ∷ past) all h =
    elim (Bool-cases (eq_text k id && ltb (at + stale_request_age) now)) [
      | inl e ↦ ground arith
      | inr n ↦ old_stale id now (negsuc ms) past all.1 (rw n at h)
    ]

pub forget-Remembers :
    {seen past : Seen} {at : ℕ} (now : ℕ)
    → at ≤ now
    → Remembers seen past at
    → Remembers (forget now seen) past now
forget-Remembers {seen} {past} {at} now l r = record {
  read = λ id h. r.read id (has-forget id now seen h);
  old = λ id b h. r.old id b (old-forget id b now seen h);
  kept = λ id h.
      ground (arith, r.kept id h, forget_old id now seen, r.old id now, old_later id at now past l);
}

pub pass-Remembers :
    {kept past : Seen} {now : ℕ} (id : Text)
    → has_id id kept ≡ true
    → Remembers kept past now
    → Remembers kept ((id, now) ∷ past) now
pass-Remembers {kept} {past} {now} id h r = record {
  read = λ k g. ground (arith, r.read k g);
  old = λ k b g. ground (arith, r.old k b g);
  kept = λ k g. elim (Bool-cases (eq_text id k)) [
    | inl e ↦ ground (arith, subst (λ x. has_id x kept ≡ true) ((eq_text_iff id k).0 e) h)
    | inr n ↦ ground (arith, r.kept k)
  ];
}

pub note-Remembers :
    {kept past : Seen} {now : ℕ} (id : Text)
    → Remembers kept past now
    → Remembers ((id, now) ∷ kept) ((id, now) ∷ past) now
note-Remembers {kept} {past} {now} id r = record {
  read = λ k g. ground (arith, r.read k);
  old = λ k b g. ground (arith, r.old k b);
  kept = λ k g. ground (arith, r.kept k);
}
