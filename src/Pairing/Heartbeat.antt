-- ===== src/Pairing/Heartbeat.antt =====
-- cmd/host/main.go: what runHeartbeat tells the operator.
use freedesk.Prelude.{Bool, true, false, List, [], ◌∷◌}
use freedesk.Pairing.{Report, lost, back, run_heartbeat}

-- Contact is lost and comes back in turns.
abbrev pub Alternates : Bool → List Report → Type 0
Alternates down [] = Unit
Alternates false (lost ∷ rs) = Alternates true rs
Alternates false (back ∷ rs) = ⊥
Alternates true (back ∷ rs) = Alternates false rs
Alternates true (lost ∷ rs) = ⊥

run_heartbeat-Alternates :
    (down : Bool) (fails : List Bool) → Alternates down (run_heartbeat down fails)
unfolding run_heartbeat
run_heartbeat-Alternates true [] = tt
run_heartbeat-Alternates false [] = tt
run_heartbeat-Alternates true (true ∷ fails) = run_heartbeat-Alternates true fails
run_heartbeat-Alternates true (false ∷ fails) = run_heartbeat-Alternates false fails
run_heartbeat-Alternates false (true ∷ fails) = run_heartbeat-Alternates true fails
run_heartbeat-Alternates false (false ∷ fails) = run_heartbeat-Alternates false fails
