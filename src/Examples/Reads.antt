-- ===== src/Examples/Reads.antt =====
-- Pages of a short list, and an append to the audit log.
use restore_engine.Common.{ℕ, ◌≤◌, ◌≡◌, refl, List, [], ◌∷◌, none, take, length, arith}
use restore_engine.Records.{clamped, paginate, audit_entry, audit_retain, append_audit, list_audit}
use restore_engine.Records.Audit.{append_audit_exact}

abbrev five : List ℕ
five = 1 ∷ 2 ∷ 3 ∷ 4 ∷ 5 ∷ []

second_page : (paginate five 2 2).items ≡ 3 ∷ 4 ∷ []
unfolding paginate
second_page = refl

append_audit_exact_example :
    let log' = append_audit "t1" " stop " "" [] none [] in
    (length log' ≤ audit_retain none)
    × (list_audit 10 0 log' ≡ take (clamped 10) (audit_entry "t1" " stop " "" [] ∷ []))
append_audit_exact_example = append_audit_exact "t1" " stop " "" [] none [] 10 (omega arith)
