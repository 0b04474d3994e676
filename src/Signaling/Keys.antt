-- ===== src/Signaling/Keys.antt =====
-- signaling/rtdb_transport.go: the candidates by their keys.
use mathlib.Core.List.{append-nil, append_assoc}
use freedesk.Prelude.{
  ◌≡◌, refl, ap, sym, subst, ◌∙◌, true, false, ◌||◌, [], ◌∷◌, ◌++◌, Option, none, some, Text,
  eq_text, eq_text_iff, is_empty, any, is_some, if◌then◌else◌, arith, Bool-cases, inl, inr,
}
use freedesk.Signaling.{IceCandidate, Candidates}
use freedesk.Signaling.Stream.{Transport, emit_candidate}

-- The first candidate of a key.
unfoldable pub find : Text → Candidates → Option IceCandidate
find k [] = none
find k ((j, c) ∷ cs) = let rest = find k cs in if eq_text j k then some c else rest

-- No key stands twice.
abbrev pub Unique : Candidates → Type 0
Unique [] = Unit
Unique ((k, c) ∷ cs) = (find k cs ≡ none) × Unique cs

abbrev pub Noted : Transport → Type 0
Noted t = (k : Text) → any (λ j. eq_text j k) t.seen_cand ≡ is_some (find k t.remote_cand)

find-snoc_new :
    (j k : Text) (c : IceCandidate) (cs : Candidates)
    → is_some (find k (cs ++ ((j, c) ∷ []))) ≡ (eq_text j k || is_some (find k cs))
unfolding find
find-snoc_new j k c [] = ground arith
find-snoc_new j k c ((i, d) ∷ cs) = ground (arith, find-snoc_new j k c cs)

eq_text_comm : (s t : Text) → eq_text s t ≡ eq_text t s
eq_text_comm [] [] = refl
eq_text_comm [] (b ∷ t) = refl
eq_text_comm (a ∷ s) [] = refl
eq_text_comm (a ∷ s) (b ∷ t) = ground (arith, eq_text_comm s t)

find-other :
    (j k : Text) (c : IceCandidate) (cs ds : Candidates)
    → eq_text j k ≡ false
    → find k (cs ++ ((j, c) ∷ ds)) ≡ find k (cs ++ ds)
unfolding find
find-other j k c [] ds h = rw h refl
find-other j k c ((i, d) ∷ cs) ds h = rw (find-other j k c cs ds h) refl

find-known :
    (j k : Text) (c : IceCandidate) (cs ds : Candidates)
    → is_some (find j cs) ≡ true
    → find k (cs ++ ds) ≡ find k (cs ++ ((j, c) ∷ ds))
unfolding find
find-known j k c [] ds h = cc
find-known j k c ((i, d) ∷ cs) ds h = elim (Bool-cases (eq_text i k)) [
  | inl e ↦ rw e refl
  | inr e ↦ elim (Bool-cases (eq_text i j)) [
    | inl same ↦
        let other = subst (λ x. eq_text x k ≡ false) ((eq_text_iff i j).0 same) e in
        rw (find-other j k c cs ds other) refl
    | inr apart ↦ rw (find-known j k c cs ds (ground arith)) refl
  ]
]

none_of : (o : Option IceCandidate) → is_some o ≡ false → o ≡ none
none_of none h = refl
none_of (some c) h = cc

Unique-snoc :
    (j : Text) (c : IceCandidate) (cs : Candidates)
    → Unique cs
    → is_some (find j cs) ≡ false
    → Unique (cs ++ ((j, c) ∷ []))
unfolding find
Unique-snoc j c [] u h = (refl, tt)
Unique-snoc j c ((i, d) ∷ cs) u h =
    let apart : eq_text j i ≡ false = ground (arith, eq_text_comm j i) in
    (
      find-other j i c cs [] apart ∙ ap (find i) (append-nil cs) ∙ u.0,
      Unique-snoc j c cs u.1 (ground arith),
    )

pub find-emit_candidate :
    (t : Transport) (j k : Text) (c : IceCandidate) (ds : Candidates)
    → Noted t
    → find k ((emit_candidate t j c).remote_cand ++ ds)
      ≡ find k (t.remote_cand ++ (if is_empty c.candidate then ds else (j, c) ∷ ds))
unfolding emit_candidate
find-emit_candidate t j k c ds n = elim (Bool-cases (is_empty c.candidate)) [
  | inl e ↦ rw e refl
  | inr e ↦ elim (Bool-cases (any (λ i. eq_text i j) t.seen_cand)) [
    | inl dup ↦ rw (e, dup) (find-known j k c t.remote_cand ds (sym (n j) ∙ dup))
    | inr new ↦ rw (e, new) (ap (find k) (append_assoc t.remote_cand ((j, c) ∷ []) ds))
  ]
]

pub emit_candidate-Noted :
    (t : Transport) (j : Text) (c : IceCandidate)
    → Noted t
    → Unique t.remote_cand
    → let t' = emit_candidate t j c in Noted t' × Unique t'.remote_cand
unfolding emit_candidate
emit_candidate-Noted t j c n u = elim (Bool-cases (is_empty c.candidate)) [
  | inl e ↦ rw e (n, u)
  | inr e ↦ elim (Bool-cases (any (λ k. eq_text k j) t.seen_cand)) [
    | inl dup ↦ rw (e, dup) (n, u)
    | inr new ↦
        rw (e, new)
          (
            λ k. rw (find-snoc_new j k c t.remote_cand) (rw (n k) refl),
            Unique-snoc j c t.remote_cand u (sym (n j) ∙ new),
          )
  ]
]
