-- ===== src/Firewall/Examples.antt =====
-- The theorem about the firewall's answer, at a concrete one.
use freedesk.Prelude.{◌≡◌, refl, true, false, List, [], ◌∷◌, ◌++◌, Text, text, any}
use freedesk.Firewall.{
  reachable, parse, split_on, first_or_empty, same_program, expand, is_positive_number, profiles_of,
  normalize_profile,
}
use freedesk.Firewall.Verdict.{
  all_networks, first_owner, last_turned, is_block, lets_in, networks_first, lets_through,
  described, parse_verdict,
}
use freedesk.Config.{getenv, lookup_env}

abbrev exe : Text
exe = text "C:\\desk.exe"

-- On, in a private network, with a rule for private networks.
abbrev answer : Text
answer =
    text "enabled|3"
    ++ (10
        ∷ (text "network|Private"
            ++ (10 ∷ (text "rule|Allow|Private, Public|%Root%\\desk.exe" ++ (10 ∷ [])))))

abbrev env : List (Text × Text)
env = (text "Root", text "C:") ∷ []

lines_lem : networks_first (described (λ c. c) (λ p. p) env answer exe) ≡ true
unfolding split_on same_program expand is_positive_number profiles_of normalize_profile getenv
    lookup_env
lines_lem = refl

parse_verdict_example :
    let ls = described (λ c. c) (λ p. p) env answer exe in
    let st = parse (λ c. c) (λ p. p) env answer exe in
    (st.owner ≡ first_owner ls)
    × (st.enabled ≡ last_turned false ls)
    × (st.network ≡ first_or_empty (all_networks ls))
    × (st.blocked ≡ any is_block ls)
    × (st.allowed ≡ any (lets_in (all_networks ls)) ls)
    × (reachable st ≡ lets_through ls)
parse_verdict_example = parse_verdict (λ c. c) (λ p. p) env answer exe lines_lem
