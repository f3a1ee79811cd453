-- ===== src/Records/Audit.antt =====
-- What the audit log keeps.
use restore_engine.Common.{
  ℕ, zero, suc, ◌≤◌, ◌≡◌, refl, ap, String, Option, none, some, List, [], ◌∷◌, length, take, arith,
}
use restore_engine.Records.{
  AuditEntry, clamped, audit_entry, audit_retain, append_audit, list_audit,
}

length-take-le : {A : Type 0} (n : ℕ) (xs : List A) → length (take n xs) ≤ n
length-take-le zero xs = omega arith
length-take-le (suc n) [] = omega arith
length-take-le (suc n) (x ∷ xs) = omega (arith, length-take-le n xs)

take-take : {A : Type 0} (m n : ℕ) (xs : List A) → m ≤ n → take m (take n xs) ≡ take m xs
take-take zero n xs h = refl
take-take (suc m) zero xs h = absurd (omega (arith, h))
take-take (suc m) (suc n) [] h = refl
take-take (suc m) (suc n) (x ∷ xs) h = ap (λ l. x ∷ l) (take-take m n xs (omega (arith, h)))

retains : (configured : Option ℕ) → 100 ≤ audit_retain configured
unfolding audit_retain
retains none = omega arith
retains (some zero) = omega arith
retains (some (suc n)) = omega arith

-- However many entries were written: after an append the log has at most as many as are to be
-- retained, which are 100 at least; and a first page of up to 100 entries shows the new entry and,
-- behind it, the entries that were the newest before.
pub append_audit_exact :
    (now action actor : String) (detail : List (String × String)) (configured : Option ℕ)
    (log : List AuditEntry) (limit : ℕ)
    → limit ≤ 100
    → let log' = append_audit now action actor detail configured log in
      (length log' ≤ audit_retain configured)
      × (list_audit limit 0 log' ≡ take (clamped limit) (audit_entry now action actor detail ∷ log))
unfolding append_audit list_audit
append_audit_exact now action actor detail configured log limit h =
    let kept = retains configured in
    (
      length-take-le (audit_retain configured) (audit_entry now action actor detail ∷ log),
      take-take (clamped limit) (audit_retain configured)
          (audit_entry now action actor detail ∷ log) (omega (arith, h, kept)),
    )
