-- ===== src/Waf/Attributed.antt =====
-- The rule that a block is put down to.
use mathlib.Core.List.{Memᴰ}
use mathlib.Core.Path.{subst}
use obsidian.Common.Int.{ℤ}
use obsidian.Common.{◌≡◌, refl, true, Bool-cases, inl, inr, List, [], ◌∷◌}
use obsidian.Waf.Attack.{
  first_attack, is_attack_rule, is_crs_evaluation_rule, resolve_attack_rule_id,
}

first_attack-Memᴰ :
    (interrupt id : ℤ) (matched : List ℤ)
    → Memᴰ id matched
    → is_attack_rule interrupt id ≡ true
    → (is_attack_rule interrupt (first_attack interrupt matched) ≡ true)
      × Memᴰ (first_attack interrupt matched) matched
unfolding first_attack
first_attack-Memᴰ interrupt id [] m attack = elim m [ ]
first_attack-Memᴰ interrupt id (first ∷ ids) (Memᴰ.head same_id) attack =
    let e = subst (λ i. is_attack_rule interrupt i ≡ true) same_id attack in
    rw (e, first_attack) (e, Memᴰ.head refl)
first_attack-Memᴰ interrupt id (first ∷ ids) (Memᴰ.tail m) attack =
    let rest = first_attack-Memᴰ interrupt id ids m attack in
    elim (Bool-cases (is_attack_rule interrupt first)) [
      | inl e ↦ rw (e, first_attack) (e, Memᴰ.head refl)
      | inr e ↦ rw (e, first_attack) (rest.0, Memᴰ.tail rest.1)
    ]

-- When a rule that only adds up the scores interrupts and some matched rule is an attack rule, the block
-- is put down to one of the matched rules that is an attack rule.
resolve_attack_rule_id_lem :
    (interrupt id : ℤ) (matched : List ℤ)
    → is_crs_evaluation_rule interrupt ≡ true
    → Memᴰ id matched
    → is_attack_rule interrupt id ≡ true
    → (is_attack_rule interrupt (resolve_attack_rule_id interrupt matched) ≡ true)
      × Memᴰ (resolve_attack_rule_id interrupt matched) matched
unfolding resolve_attack_rule_id
resolve_attack_rule_id_lem interrupt id matched evaluation m attack =
    rw (evaluation) (first_attack-Memᴰ interrupt id matched m attack)
