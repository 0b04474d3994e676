-- ===== src/Pairing/Examples.antt =====
-- The theorem about the pairing code, at concrete draws.
use freedesk.Prelude.{
  Bool, List, subst, eq_text, ℕ, zero, suc, ◌≡◌, refl, true, false, [], ◌∷◌, none, some, text,
}
use freedesk.Pairing.{
  Outcome, new_pairing_code, format_pairing_code, padded, published, denied, Draws, has_record,
  Agent, rotate_code, rotations, start, register_with_fresh_code, put_record, delete_record,
}
use freedesk.Pairing.Published.{IsPublished, AllFresh, drawn_again, rotations-start-IsPublished}

-- The first code is taken, the second is not.
abbrev first_draws : Draws
first_draws zero = none
first_draws (suc zero) = some (42, denied)
first_draws (suc (suc i)) = some (123456, published)

abbrev next_draws : Draws
next_draws i = some (7, published)

abbrev agent : Agent
agent = record {
  records = text "123456" ∷ [];
  code = text "123456";
  served = some (text "123456");
  shown = text "123 - 456";
}

agent_starts : start first_draws true ≡ some agent
unfolding start register_with_fresh_code put_record has_record new_pairing_code padded
    format_pairing_code
agent_starts = refl

after_rotation : rotations ((next_draws, true) ∷ []) agent ≡ record {
  records = text "000007" ∷ [];
  code = text "000007";
  served = some (text "000007");
  shown = text "000 - 007";
}
unfolding rotations rotate_code register_with_fresh_code put_record delete_record has_record
    new_pairing_code padded format_pairing_code
after_rotation = refl

abbrev rs : List (Draws × Bool)
rs = (next_draws, true) ∷ []

draws_fresh : AllFresh rs agent
unfolding new_pairing_code padded
draws_fresh = (λ i n o e. fresh n o e, tt)
  where
    fresh :
        (n : ℕ) (o : Outcome)
        → next_draws 0 ≡ some (n, o)
        → eq_text (text "123456") (new_pairing_code n) ≡ false
    fresh n o e =
        let same : 7 ≡ n = cc in
        subst (λ m. eq_text (text "123456") (new_pairing_code m) ≡ false) same refl

rotations-start-IsPublished_example : IsPublished (rotations rs agent)
rotations-start-IsPublished_example =
    rotations-start-IsPublished first_draws true agent rs agent_starts draws_fresh

same_code : new_pairing_code 123456 ≡ agent.code
unfolding new_pairing_code padded
same_code = refl

drawn_again_example :
    let b = rotate_code (λ i. some (123456, published)) true agent in
    (b.code ≡ agent.code) × (has_record b.records b.code ≡ false)
drawn_again_example = drawn_again (λ i. some (123456, published)) 123456 agent refl same_code
