-- ===== src/RespBody/Blocked.antt =====
-- Which responses are blocked.
use mathlib.Core.List.{Memᴰ}
use mathlib.Core.Path.{subst}
use obsidian.Common.{
  ◌≤◌, ◌≡◌, ◌↔◌, refl, ap, sym, ◌∙◌, to_lower, same, inl, inr, ◌⊎◌, true, false, List, [], ◌∷◌,
  Bytes, arith, ltb, take, length,
}
use obsidian.RespBody.{Config, Detection, Inspector, RegexLib, severity_level, should_exclude}
use obsidian.RespBody.Inspect.{blocks, detect_all, higher, highest, inspect}

-- A detection that is at least as severe as the configuration asks for.
abbrev pub Severe : Config → List Detection → Type 0
Severe cfg ds =
    (d : Detection) × Memᴰ d ds
    × (severity_level cfg.min_severity_to_block ≤ severity_level d.severity)

higher_bounds :
    (so_far : Bytes) (d : Detection)
    → (severity_level so_far ≤ severity_level (higher so_far d))
      × (severity_level d.severity ≤ severity_level (higher so_far d))
unfolding higher
higher_bounds so_far d = ground arith

-- The highest severity is at least that before, and that of each detection.
highest_bounds :
    (so_far : Bytes) (ds : List Detection)
    → severity_level so_far ≤ severity_level (highest so_far ds)
unfolding highest
highest_bounds so_far [] = omega arith
highest_bounds so_far (d ∷ ds) =
    omega (arith, highest_bounds (higher so_far d) ds, (higher_bounds so_far d).0)

highest_bounds_each :
    (so_far : Bytes) (ds : List Detection) (d : Detection)
    → Memᴰ d ds
    → severity_level d.severity ≤ severity_level (highest so_far ds)
unfolding highest
highest_bounds_each so_far [] d m = elim m [ ]
highest_bounds_each so_far (x ∷ ds) d (Memᴰ.head e) =
    subst (λ y. severity_level y.severity ≤ severity_level (highest (higher so_far x) ds)) (sym e)
      (omega (arith, highest_bounds (higher so_far x) ds, (higher_bounds so_far x).1))
highest_bounds_each so_far (x ∷ ds) d (Memᴰ.tail m) = highest_bounds_each (higher so_far x) ds d m

higher_is_one :
    (so_far : Bytes) (d : Detection) → (higher so_far d ≡ so_far) ⊎ (higher so_far d ≡ d.severity)
unfolding higher
higher_is_one so_far d = ground arith

-- It is that before, or that of a detection.
highest_reached :
    (so_far : Bytes) (ds : List Detection)
    → (highest so_far ds ≡ so_far)
      ⊎ ((d : Detection) × Memᴰ d ds × (highest so_far ds ≡ d.severity))
unfolding highest
highest_reached so_far [] = inl refl
highest_reached so_far (x ∷ ds) = elim (highest_reached (higher so_far x) ds) [
  | inr (d, m, e) ↦ inr (d, Memᴰ.tail m, e)
  | inl e ↦ elim (higher_is_one so_far x) [
    | inl f ↦ inl (e ∙ f)
    | inr f ↦ inr (x, Memᴰ.head refl, e ∙ f)
  ]
]

severity_level_empty : severity_level [] ≡ 0
unfolding severity_level to_lower same
severity_level_empty = refl

highest-Severe :
    (cfg : Config) (ds : List Detection)
    → ((ltb 0 (length ds) ≡ true)
        × (severity_level cfg.min_severity_to_block ≤ severity_level (highest [] ds)))
      ↔ Severe cfg ds
highest-Severe cfg [] = ((λ (a, b). absurd (ground arith)), (λ (d, m, l). elim m [ ]))
highest-Severe cfg (x ∷ ds) = (
  (λ (a, b). elim (highest_reached [] (x ∷ ds)) [
    | inr (d, m, e) ↦
        (d, m, subst (λ s. severity_level cfg.min_severity_to_block ≤ severity_level s) e b)
    | inl e ↦ (x, Memᴰ.head refl, omega (arith, b, ap severity_level e, severity_level_empty))
  ]),
  (λ (d, m, l). (ground arith, omega (arith, l, highest_bounds_each [] (x ∷ ds) d m))),
)

blocks-Severe :
    (cfg : Config) (ds : List Detection)
    → (blocks cfg ds ≡ true) ↔ ((cfg.block_on_detection ≡ true) × Severe cfg ds)
unfolding blocks
blocks-Severe cfg ds = (
  (λ h. (ground (arith, h), (highest-Severe cfg ds).0 (ground (arith, h), ground (arith, h)))),
  (λ (on, s). let (a, b) = (highest-Severe cfg ds).1 s in ground (arith, on, a, b)),
)

module _ {Regex : Type 0} (lib : RegexLib Regex) where
  -- A response is blocked exactly if the inspection is on, the content type and the path are not
  -- excluded, detections are to block, and one of those in the part of the body that is inspected is
  -- at least as severe as the configuration asks for.
  pub inspect-Severe :
      (i : Inspector Regex) (body content_type path : Bytes)
      → ((inspect lib i body content_type path).should_block ≡ true) ↔ (
          (i.config.enabled ≡ true)
          × (should_exclude i.config content_type path ≡ false)
          × (i.config.block_on_detection ≡ true)
          × Severe i.config
              (detect_all lib i.config i.custom_re (take i.config.max_body_size body)))
  unfolding inspect
  inspect-Severe i body content_type path =
      let ds = detect_all lib i.config i.custom_re (take i.config.max_body_size body) in
      let (to, from) = blocks-Severe i.config ds in
      (
        (λ h.
            let (a, b, c) : (i.config.enabled ≡ true)
                × (should_exclude i.config content_type path ≡ false)
                × (blocks i.config ds ≡ true) =
              ground (arith, h) in
            let (d, e) = to c in (a, b, d, e)),
        (λ (a, b, c, d). ground (arith, a, b, from (c, d))),
      )
