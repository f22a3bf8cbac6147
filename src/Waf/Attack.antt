-- ===== src/Waf/Attack.antt =====
-- The rule that an interruption is put down to, and the category of its attack.
use obsidian.Common.Int.{ℤ, pos, negsuc}
use obsidian.Common.{
  ℕ, Bool, false, not, ◌&&◌, ◌||◌, leb, ltb, List, [], ◌∷◌, Bytes, codes, if◌then◌else◌,
}
use obsidian.Store.{same_id}

-- `low <= id && id < high`
unfoldable pub ranges : ℕ → ℕ → ℤ → Bool
ranges low high (pos n) = leb low n && ltb n high
ranges low high (negsuc n) = false

unfoldable pub classify_rule_id : ℤ → Bytes
classify_rule_id id =
    if ranges 941000 942000 id
    then codes "XSS Attack"
    else if ranges 942000 943000 id
    then codes "SQL Injection"
    else if ranges 932000 933000 id
    then codes "Remote Code Execution"
    else if ranges 930000 931000 id
    then codes "Local File Inclusion"
    else if ranges 931000 932000 id
    then codes "Remote File Inclusion"
    else if ranges 913000 914000 id
    then codes "Scanner Detection"
    else if ranges 920000 921000 id
    then codes "Protocol Violation"
    else if ranges 933000 934000 id
    then codes "PHP Injection"
    else if ranges 934000 935000 id
    then codes "Node.js Injection"
    else if ranges 943000 944000 id
    then codes "Session Fixation"
    else if ranges 944000 945000 id
    then codes "Java Attack"
    else if ranges 910000 913000 id
    then codes "Protocol Anomaly"
    else codes "WAF Block"

unfoldable pub is_crs_evaluation_rule : ℤ → Bool
is_crs_evaluation_rule id =
    ranges 900100 901000 id
    || ranges 949000 950000 id
    || ranges 959000 960000 id
    || ranges 980000 990000 id

unfoldable pub at_least : ℕ → ℤ → Bool
at_least low (pos n) = leb low n
at_least low (negsuc n) = false

-- A matched rule that stands for an attack.
unfoldable pub is_attack_rule : ℤ → ℤ → Bool
is_attack_rule interrupt id =
    not (same_id id interrupt) && not (is_crs_evaluation_rule id) && at_least 900000 id

unfoldable pub first_attack : ℤ → List ℤ → ℤ
first_attack interrupt [] = interrupt
first_attack interrupt (id ∷ ids) =
    let rest = first_attack interrupt ids in if is_attack_rule interrupt id then id else rest

-- `resolveAttackRuleID`, given the matched rules of the transaction.
unfoldable pub resolve_attack_rule_id : ℤ → List ℤ → ℤ
resolve_attack_rule_id interrupt matched =
    if not (is_crs_evaluation_rule interrupt) then interrupt else first_attack interrupt matched
