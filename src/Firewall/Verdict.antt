-- ===== src/Firewall/Verdict.antt =====
-- firewall/status.go: parse as a whole, and Reachable of what it gives.
use freedesk.Prelude.{
  ℕ, ◌≡◌, refl, ◌∙◌, sym, ap, Bool, true, false, not, ◌&&◌, ◌||◌, List, [], ◌∷◌, ◌++◌, Text, any,
  is_empty, if◌then◌else◌, arith, map,
}
use mathlib.Core.List.{append_assoc, append-nil}
use freedesk.Config.{Vars}
use freedesk.Firewall.{
  Status, reachable, Line, owns, turned, networks, blocks, allows, nothing, covers, split_on,
  apply_line, apply_lines, no_status, parse, first_or_empty,
}
use freedesk.Firewall.Lines.{reaches, covers-reaches, fields_of, meaning, read_line-meaning}

-- The description: each of it of the lines by themselves.
unfoldable pub all_networks : List Line → List Text
all_networks [] = []
all_networks (networks ns ∷ ls) = ns ++ all_networks ls
all_networks (_ ∷ ls) = all_networks ls

unfoldable pub first_owner : List Line → Text
first_owner [] = []
first_owner (owns n ∷ ls) = let rest = first_owner ls in if is_empty n then rest else n
first_owner (_ ∷ ls) = first_owner ls

unfoldable pub last_turned : Bool → List Line → Bool
last_turned on [] = on
last_turned on (turned b ∷ ls) = last_turned b ls
last_turned on (_ ∷ ls) = last_turned on ls

abbrev pub is_block : Line → Bool
is_block blocks = true
is_block _ = false

abbrev pub lets_in : List Text → Line → Bool
lets_in nets (allows profiles) = reaches nets profiles
lets_in nets _ = false

abbrev pub is_network : Line → Bool
is_network (networks ns) = true
is_network _ = false

abbrev pub is_allow : Line → Bool
is_allow (allows profiles) = true
is_allow _ = false

-- No network comes after a rule that allows.
abbrev pub networks_first : List Line → Bool
networks_first [] = true
networks_first (l ∷ ls) = (not (is_allow l) || not (any is_network ls)) && networks_first ls

abbrev Known : Type 0
Known = Status × List Text

owner-apply_lines :
    (ls : List Line) (s : Known)
    → (apply_lines ls s).0.owner ≡ (if is_empty s.0.owner then first_owner ls else s.0.owner)
unfolding apply_lines first_owner
owner-apply_lines [] s = own s.0.owner
  where
    own : (n : Text) → n ≡ (if is_empty n then [] else n)
    own [] = refl
    own (c ∷ n) = refl
owner-apply_lines (owns n ∷ ls) s = owner-apply_lines ls (apply_line (owns n) s) ∙ own n s.0.owner
  where
    own :
        (n o : Text)
        → (if is_empty (if is_empty o then n else o)
            then first_owner ls
            else if is_empty o
            then n
            else o)
          ≡ (if is_empty o then (if is_empty n then first_owner ls else n) else o)
    own n [] = refl
    own n (c ∷ o) = refl
owner-apply_lines (turned b ∷ ls) s = owner-apply_lines ls (apply_line (turned b) s)
owner-apply_lines (networks ns ∷ ls) s = owner-apply_lines ls (apply_line (networks ns) s)
owner-apply_lines (blocks ∷ ls) s = owner-apply_lines ls (apply_line blocks s)
owner-apply_lines (allows p ∷ ls) s = owner-apply_lines ls (apply_line (allows p) s)
owner-apply_lines (nothing ∷ ls) s = owner-apply_lines ls s

enabled-apply_lines :
    (ls : List Line) (s : Known) → (apply_lines ls s).0.enabled ≡ last_turned s.0.enabled ls
unfolding apply_lines last_turned
enabled-apply_lines [] s = refl
enabled-apply_lines (owns n ∷ ls) s = enabled-apply_lines ls (apply_line (owns n) s)
enabled-apply_lines (turned b ∷ ls) s = enabled-apply_lines ls (apply_line (turned b) s)
enabled-apply_lines (networks ns ∷ ls) s = enabled-apply_lines ls (apply_line (networks ns) s)
enabled-apply_lines (blocks ∷ ls) s = enabled-apply_lines ls (apply_line blocks s)
enabled-apply_lines (allows p ∷ ls) s = enabled-apply_lines ls (apply_line (allows p) s)
enabled-apply_lines (nothing ∷ ls) s = enabled-apply_lines ls s

block_all-apply_lines :
    (ls : List Line) (s : Known) → (apply_lines ls s).0.block_all ≡ s.0.block_all
unfolding apply_lines
block_all-apply_lines [] s = refl
block_all-apply_lines (owns n ∷ ls) s = block_all-apply_lines ls (apply_line (owns n) s)
block_all-apply_lines (turned b ∷ ls) s = block_all-apply_lines ls (apply_line (turned b) s)
block_all-apply_lines (networks ns ∷ ls) s = block_all-apply_lines ls (apply_line (networks ns) s)
block_all-apply_lines (blocks ∷ ls) s = block_all-apply_lines ls (apply_line blocks s)
block_all-apply_lines (allows p ∷ ls) s = block_all-apply_lines ls (apply_line (allows p) s)
block_all-apply_lines (nothing ∷ ls) s = block_all-apply_lines ls s

or_true : (b c : Bool) → (true || c) ≡ (b || (true || c))
or_true true c = refl
or_true false c = refl

blocked-apply_lines :
    (ls : List Line) (s : Known) → (apply_lines ls s).0.blocked ≡ (s.0.blocked || any is_block ls)
unfolding apply_lines
blocked-apply_lines [] s = ground arith
blocked-apply_lines (owns n ∷ ls) s = blocked-apply_lines ls (apply_line (owns n) s)
blocked-apply_lines (turned b ∷ ls) s = blocked-apply_lines ls (apply_line (turned b) s)
blocked-apply_lines (networks ns ∷ ls) s = blocked-apply_lines ls (apply_line (networks ns) s)
blocked-apply_lines (blocks ∷ ls) s =
    blocked-apply_lines ls (apply_line blocks s) ∙ or_true s.0.blocked (any is_block ls)
blocked-apply_lines (allows p ∷ ls) s = blocked-apply_lines ls (apply_line (allows p) s)
blocked-apply_lines (nothing ∷ ls) s = blocked-apply_lines ls s

if_or : (b a c : Bool) → ((if b then true else a) || c) ≡ (a || (b || c))
if_or true true c = refl
if_or true false c = refl
if_or false a c = refl

-- Where no network follows.
settled-apply_lines :
    (ls : List Line) (s : Known)
    → any is_network ls ≡ false
    → (apply_lines ls s).0.allowed ≡ (s.0.allowed || any (lets_in s.1) ls)
unfolding apply_lines
settled-apply_lines [] s e = ground arith
settled-apply_lines (owns n ∷ ls) s e = settled-apply_lines ls (apply_line (owns n) s) e
settled-apply_lines (turned b ∷ ls) s e = settled-apply_lines ls (apply_line (turned b) s) e
settled-apply_lines (networks ns ∷ ls) s e = absurd (cc)
settled-apply_lines (blocks ∷ ls) s e = settled-apply_lines ls (apply_line blocks s) e
settled-apply_lines (allows p ∷ ls) s e =
    settled-apply_lines ls (apply_line (allows p) s) e
    ∙ (if_or (covers p s.1) s.0.allowed (any (lets_in s.1) ls)
        ∙ ap (λ b. s.0.allowed || (b || any (lets_in s.1) ls)) (covers-reaches p s.1))
settled-apply_lines (nothing ∷ ls) s e = settled-apply_lines ls s e

nets-apply_lines : (ls : List Line) (s : Known) → (apply_lines ls s).1 ≡ s.1 ++ all_networks ls
unfolding apply_lines all_networks
nets-apply_lines [] s = sym (append-nil s.1)
nets-apply_lines (owns n ∷ ls) s = nets-apply_lines ls (apply_line (owns n) s)
nets-apply_lines (turned b ∷ ls) s = nets-apply_lines ls (apply_line (turned b) s)
nets-apply_lines (networks ns ∷ ls) s =
    nets-apply_lines ls (apply_line (networks ns) s) ∙ append_assoc s.1 ns (all_networks ls)
nets-apply_lines (blocks ∷ ls) s = nets-apply_lines ls (apply_line blocks s)
nets-apply_lines (allows p ∷ ls) s = nets-apply_lines ls (apply_line (allows p) s)
nets-apply_lines (nothing ∷ ls) s = nets-apply_lines ls s

no_networks : (ls : List Line) → any is_network ls ≡ false → all_networks ls ≡ []
unfolding all_networks
no_networks [] e = refl
no_networks (owns n ∷ ls) e = no_networks ls e
no_networks (turned b ∷ ls) e = no_networks ls e
no_networks (networks ns ∷ ls) e = absurd (cc)
no_networks (blocks ∷ ls) e = no_networks ls e
no_networks (allows p ∷ ls) e = no_networks ls e
no_networks (nothing ∷ ls) e = no_networks ls e

allowed-apply_lines :
    (ls : List Line) (s : Known)
    → networks_first ls ≡ true
    → (apply_lines ls s).0.allowed ≡ (s.0.allowed || any (lets_in (s.1 ++ all_networks ls)) ls)
unfolding apply_lines all_networks
allowed-apply_lines [] s e = ground arith
allowed-apply_lines (owns n ∷ ls) s e = allowed-apply_lines ls (apply_line (owns n) s) e
allowed-apply_lines (turned b ∷ ls) s e = allowed-apply_lines ls (apply_line (turned b) s) e
allowed-apply_lines (networks ns ∷ ls) s e =
    allowed-apply_lines ls (apply_line (networks ns) s) e
    ∙ ap (λ nets. s.0.allowed || any (lets_in nets) ls) (append_assoc s.1 ns (all_networks ls))
allowed-apply_lines (blocks ∷ ls) s e = allowed-apply_lines ls (apply_line blocks s) e
allowed-apply_lines (allows p ∷ ls) s e =
    let later : any is_network ls ≡ false = ground arith in
    let all : s.1 ++ all_networks ls ≡ s.1 =
      ap (λ ns. s.1 ++ ns) (no_networks ls later) ∙ append-nil s.1 in
    settled-apply_lines (allows p ∷ ls) s later
    ∙ ap (λ nets. s.0.allowed || any (lets_in nets) (allows p ∷ ls)) (sym all)
allowed-apply_lines (nothing ∷ ls) s e = allowed-apply_lines ls s e

-- What the answer's lines say together, where no network is named after a rule that allows: another
-- product owns the firewall, or no line, the last of its kind, says that it is on, or no rule blocks
-- the program and one allows it on some network of all that are named, or on any.
abbrev pub lets_through : List Line → Bool
lets_through ls =
    not (is_empty (first_owner ls))
    || not (last_turned false ls)
    || (not (any is_block ls) && any (lets_in (all_networks ls)) ls)

abbrev pub described : (ℕ → ℕ) → (Text → Text) → Vars → (out exe : Text) → List Line
described fold clean env out exe =
    map (λ l. meaning fold clean env exe (fields_of l)) (split_on 10 out)

-- parse, where no line names a network after a rule that allows the program; by the fields of its lines:
-- it takes the first owner with a name, the last word on whether the firewall is on, and the first
-- network; the program is blocked if any rule that names it is a Block, and allowed if any rule that
-- names it is an Allow for any profile or for that of one of all networks that are named, or if no
-- network is; and Reachable follows from these.
pub parse_verdict :
    (fold : ℕ → ℕ) (clean : Text → Text) (env : Vars) (out exe : Text)
    → let ls = described fold clean env out exe in
      let st = parse fold clean env out exe in
      networks_first ls ≡ true
      → (st.owner ≡ first_owner ls)
        × (st.enabled ≡ last_turned false ls)
        × (st.network ≡ first_or_empty (all_networks ls))
        × (st.blocked ≡ any is_block ls)
        × (st.allowed ≡ any (lets_in (all_networks ls)) ls)
        × (reachable st ≡ lets_through ls)
unfolding parse reachable
parse_verdict fold clean env out exe e =
    let ls = described fold clean env out exe in
    let s : Known = (no_status, []) in
    let owner = owner-apply_lines ls s in
    let enabled = enabled-apply_lines ls s in
    let all = block_all-apply_lines ls s in
    let blocked = blocked-apply_lines ls s in
    let allowed = allowed-apply_lines ls s e in
    rw (read_line-meaning fold clean env exe (split_on 10 out)) (
      owner,
      enabled,
      ap first_or_empty (nets-apply_lines ls s),
      blocked,
      allowed,
      rw (owner, enabled, all, blocked, allowed) refl,
    )
