-- ===== src/Auth/Fresh.antt =====
-- auth/auth.go: Manager.IDToken, over all calls of the program's life.
use freedesk.Prelude.{
  ℕ, ◌+◌, ◌≤◌, ◌≡◌, refl, ◌∙◌, sym, true, false, ◌⊎◌, inl, inr, List, [], ◌∷◌, Option, none, some,
  Text, is_empty, ltb, arith, Bool-cases,
}
use freedesk.Auth.{Token, Response, minute, token_of, expiry_from_seconds, refreshed, id_tokens}

abbrev pub expiry : Response → ℕ
expiry r = expiry_from_seconds r.at r.expires_in

abbrev pub Among : Response → List Response → Type 0
Among r [] = ⊥
Among r (x ∷ xs) = (r ≡ x) ⊎ Among r xs

abbrev pub with_answer : Option Response → List Response → List Response
with_answer none rs = rs
with_answer (some r) rs = r ∷ rs

-- Each result of a call: a token that a server gave, by now, and that has a minute or more left or
-- was given for this call; or an error, and Refresh had failed.
abbrev pub Handed : List Response → List (ℕ × Option Response) → List (Option Text) → Type 0
Handed rs [] [] = Unit
Handed rs [] (g ∷ gs) = ⊥
Handed rs (c ∷ calls) [] = ⊥
Handed rs ((now, answer) ∷ calls) (none ∷ gs) = (answer ≡ none) × Handed rs calls gs
Handed rs ((now, answer) ∷ calls) (some g ∷ gs) =
    ((r : Response) × Among r (with_answer answer rs)
      × (g ≡ r.id_token)
      × ((now + minute ≤ expiry r) ⊎ (answer ≡ some r)))
    × Handed (with_answer answer rs) calls gs

-- Every answer is for the user that signed up, or names none.
abbrev pub SameUser : Text → List (ℕ × Option Response) → Type 0
SameUser uid [] = Unit
SameUser uid ((now, none) ∷ calls) = SameUser uid calls
SameUser uid ((now, some r) ∷ calls) =
    ((is_empty r.uid ≡ true) ⊎ (r.uid ≡ uid)) × SameUser uid calls

-- The token comes from a response.
abbrev From : Token → List Response → Type 0
From t rs = (r : Response) × Among r rs × (t.id_token ≡ r.id_token) × (t.expires_at ≡ expiry r)

more_From :
    (t : Token) (answer : Option Response) (rs : List Response)
    → From t rs
    → From t (with_answer answer rs)
more_From t none rs f = f
more_From t (some x) rs (r, a, e, f) = (r, inr a, e, f)

-- Away from the expiry.
kept-Handed :
    (t : Token) (now : ℕ) (answer : Option Response) (rs : List Response)
    (calls : List (ℕ × Option Response)) (gs : List (Option Text))
    → From t rs
    → ltb t.expires_at (now + minute) ≡ false
    → Handed (with_answer answer rs) calls gs
    → Handed rs ((now, answer) ∷ calls) (some t.id_token ∷ gs)
kept-Handed t now answer rs calls gs f e h =
    let (r, a, i, x) = more_From t answer rs f in
    let left : now + minute ≤ t.expires_at = ground arith in
    ((r, a, i, inl (omega (arith, x, left))), h)

id_tokens-Handed :
    (t : Token) (rs : List Response) (calls : List (ℕ × Option Response))
    → From t rs
    → Handed rs calls (id_tokens t calls).1
unfolding id_tokens
id_tokens-Handed t rs [] f = tt
id_tokens-Handed t rs ((now, none) ∷ calls) f =
    elim (Bool-cases (ltb t.expires_at (now + minute))) [
      | inl e ↦ rw e (refl, id_tokens-Handed t rs calls f)
      | inr e ↦ rw e (kept-Handed t now none rs calls _ f e (id_tokens-Handed t rs calls f))
    ]
id_tokens-Handed t rs ((now, some r) ∷ calls) f =
    elim (Bool-cases (ltb t.expires_at (now + minute))) [
      | inl e ↦ rw e (
        (r, inl refl, refl, inr refl),
        id_tokens-Handed (refreshed t (some r)).0 (r ∷ rs) calls (r, inl refl, refl, refl),
      )
      | inr e ↦ rw e (
          kept-Handed t now (some r) rs calls _ f e
            (id_tokens-Handed t (r ∷ rs) calls (more_From t (some r) rs f)))
    ]

refreshed_uid :
    (t : Token) (r : Response)
    → (is_empty r.uid ≡ true) ⊎ (r.uid ≡ t.uid)
    → (refreshed t (some r)).0.uid ≡ t.uid
unfolding token_of
refreshed_uid t r (inl e) = rw e refl
refreshed_uid t r (inr e) = elim (Bool-cases (is_empty r.uid)) [
  | inl y ↦ rw y refl
  | inr n ↦ rw n e
]

id_tokens_uid :
    (uid : Text) (t : Token) (calls : List (ℕ × Option Response))
    → t.uid ≡ uid
    → SameUser uid calls
    → (id_tokens t calls).0.uid ≡ uid
unfolding id_tokens
id_tokens_uid uid t [] u s = u
id_tokens_uid uid t ((now, none) ∷ calls) u s =
    elim (Bool-cases (ltb t.expires_at (now + minute))) [
      | inl e ↦ rw e (id_tokens_uid uid t calls u s)
      | inr e ↦ rw e (id_tokens_uid uid t calls u s)
    ]
id_tokens_uid uid t ((now, some r) ∷ calls) u s =
    elim (Bool-cases (ltb t.expires_at (now + minute))) [
      | inl e ↦ rw e (
          id_tokens_uid uid (refreshed t (some r)).0 calls
            (refreshed_uid t r (rw (sym u) at s.0) ∙ u) s.1)
      | inr e ↦ rw e (id_tokens_uid uid t calls u s.1)
    ]

-- The ID tokens of a run, from the sign-up on, at any times and whatever Refresh answers, as long as it
-- names the user that signed up, or none: each that is handed out was given by a server, and has a
-- minute or more left or is the answer of that very call; there is an error only where Refresh failed;
-- and the user stays the same.
pub id_tokens-Fresh :
    (signed_up : Response) (calls : List (ℕ × Option Response))
    → SameUser signed_up.uid calls
    → let (t, given) = id_tokens (token_of signed_up) calls in
      Handed (signed_up ∷ []) calls given × (t.uid ≡ signed_up.uid)
unfolding token_of
id_tokens-Fresh signed_up calls same = (
  id_tokens-Handed (token_of signed_up) (signed_up ∷ []) calls (signed_up, inl refl, refl, refl),
  id_tokens_uid signed_up.uid (token_of signed_up) calls refl same,
)
