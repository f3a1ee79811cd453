-- ===== src/Records.antt =====
-- job_hygiene.py, `paginate`, and audit.py: the pages of a list, and the bounded audit log in Redis,
-- newest entry first. Offsets and limits are clamped at 0 before; the stored lines can be read back.
pub mod Pages
pub mod Audit
use restore_engine.Common.{
  ℕ, ◌+◌, zero, suc, min, max, String, Bool, Option, none, some, List, [], ◌∷◌, ◌++◌, length, take,
  drop, ltb, ◌==◌, string_key, if◌then◌else◌,
}
use restore_engine.Common.Text.{strip}

pub record Page {ℓ} (A : Type ℓ) : Type ℓ where
  pub items : List A
  pub total : ℕ
  pub offset : ℕ
  pub limit : ℕ
  pub has_more : Bool

-- `max(1, min(500, int(limit)))`
abbrev pub clamped : ℕ → ℕ
clamped limit = max 1 (min 500 limit)

unfoldable pub paginate {ℓ} : {A : Type ℓ} → List A → ℕ → ℕ → Page A
paginate items offset limit =
    let n = clamped limit in
    record {
      items = take n (drop offset items);
      total = length items;
      offset = offset;
      limit = n;
      has_more = ltb (offset + n) (length items);
    }

pub record AuditEntry : Type 0 where
  pub ts : String
  pub action : String
  pub actor : String
  pub detail : List (String × String)

-- The configured number, which may be missing or 0.
unfoldable pub audit_retain : Option ℕ → ℕ
audit_retain none = 2000
audit_retain (some zero) = 2000
audit_retain (some (suc n)) = max 100 (suc n)

abbrev or_text : String → String → String
or_text s d = if strip s == "" then d else strip s

abbrev pub audit_entry : String → String → String → List (String × String) → AuditEntry
audit_entry now action actor detail = record {
  ts = now;
  action = or_text action "unknown";
  actor = or_text actor "ui";
  detail = detail;
}

-- LPUSH, then LTRIM.
unfoldable pub append_audit :
    String → String → String → List (String × String) → Option ℕ → List AuditEntry → List AuditEntry
unfolding audit_retain
append_audit now action actor detail configured log =
    take (audit_retain configured) (audit_entry now action actor detail ∷ log)

-- LRANGE from `offset` to `offset + limit - 1`.
unfoldable pub list_audit : ℕ → ℕ → List AuditEntry → List AuditEntry
list_audit limit offset log = take (clamped limit) (drop offset log)
