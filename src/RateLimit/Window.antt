-- ===== src/RateLimit/Window.antt =====
-- The sliding window of internal/app/ratelimit/ratelimit.go: how many requests of an address pass.
use obsidian.Common.{
  ℕ, ◌*◌, ◌<◌, ◌≤◌, ◌≡◌, refl, sym, ap, ◌∙◌, inl, inr, ◌&&◌, not, List, [], ◌∷◌, ◌++◌, Option, none,
  some, arith, length, keep, All, All-append, keep-append, length-append, if◌then◌else◌, Bool-cases,
  leb, ltb, ◌==◌, ltb→lt, ltb-false→le,
}
use native.Mathlib.Nat.{le_refl}
use obsidian.RateLimit.{second, recent, is_recent, Visitor, EndpointConfig}
use obsidian.RateLimit.Visitors.{tidy}
use obsidian.RateLimit.Refine.{visit}

-- The times of the list that lie in the minute that ends at `t`.
unfoldable pub in_window : ℕ → List ℕ → List ℕ
in_window t = keep (λ ts. is_recent t ts && leb ts t)

recent-recent : (t u : ℕ) (l : List ℕ) → t ≤ u → recent u (recent t l) ≡ recent u l
unfolding recent
recent-recent t u [] h = refl
recent-recent t u (x ∷ l) h = ground (arith, recent-recent t u l h)

recent-append : (t : ℕ) (xs ys : List ℕ) → recent t (xs ++ ys) ≡ recent t xs ++ recent t ys
unfolding recent
recent-append t xs ys = keep-append (is_recent t) xs ys

recent_mono : (t u : ℕ) (l : List ℕ) → t ≤ u → length (recent u l) ≤ length (recent t l)
unfolding recent
recent_mono t u [] h = omega arith
recent_mono t u (x ∷ l) h = ground (arith, recent_mono t u l h)

abbrev pub NotAfter : ℕ → List ℕ → Type 0
NotAfter t = All (λ ts. ts ≤ t)

in_window-recent : (t : ℕ) (l : List ℕ) → NotAfter t l → in_window t l ≡ recent t l
unfolding in_window recent
in_window-recent t [] h = refl
in_window-recent t (x ∷ l) h = ground (arith, in_window-recent t l h.1)

in_window-append :
    (t : ℕ) (xs ys : List ℕ) → in_window t (xs ++ ys) ≡ in_window t xs ++ in_window t ys
unfolding in_window
in_window-append t xs ys = keep-append (λ ts. is_recent t ts && leb ts t) xs ys

NotAfter-mono : (t u : ℕ) (l : List ℕ) → t ≤ u → NotAfter t l → NotAfter u l
NotAfter-mono t u [] h n = tt
NotAfter-mono t u (x ∷ l) h n = (omega arith, NotAfter-mono t u l h n.1)

-- The timestamps that the limiter holds for an address.
abbrev pub held : Option Visitor → List ℕ
held none = []
held (some v) = v.timestamps

-- `acc` are the times at which requests passed, `l` those that the limiter holds at time `t`.
pub record Tracks (limit t : ℕ) (acc l : List ℕ) : Type 0 where
  pub past : NotAfter t acc
  pub bounded : (u : ℕ) → length (in_window u acc) ≤ limit
  pub agrees : (u : ℕ) → t ≤ u → recent u acc ≡ recent u l

pub Tracks-later :
    (limit t u : ℕ) (acc l : List ℕ) → t ≤ u → Tracks limit t acc l → Tracks limit u acc l
Tracks-later limit t u acc l h k = record {
  past = NotAfter-mono t u acc h k.past;
  bounded = k.bounded;
  agrees = λ w hw. k.agrees w (omega arith);
}

-- Dropping the timestamps outside the window changes nothing.
Tracks-recent :
    (limit t : ℕ) (acc l : List ℕ) → Tracks limit t acc l → Tracks limit t acc (recent t l)
Tracks-recent limit t acc l k = record {
  past = k.past;
  bounded = k.bounded;
  agrees = λ u h. k.agrees u h ∙ sym (recent-recent t u l h);
}

nil_of_length : (l : List ℕ) → length l ≡ 0 → l ≡ []
nil_of_length [] e = refl
nil_of_length (x ∷ l) e = absurd (omega arith)

Tracks-cleared :
    (limit t : ℕ) (acc l : List ℕ)
    → length (recent t l) ≡ 0
    → Tracks limit t acc l
    → Tracks limit t acc []
Tracks-cleared limit t acc l e k = record {
  past = k.past;
  bounded = k.bounded;
  agrees = λ u h.
      k.agrees u h ∙ sym (recent-recent t u l h) ∙ ap (recent u) (nil_of_length (recent t l) e);
}

in_window_one : (u t : ℕ) → length (in_window u (t ∷ [])) ≤ 1
unfolding in_window
in_window_one u t = ground arith

in_window_later : (u t : ℕ) → u < t → length (in_window u (t ∷ [])) ≡ 0
unfolding in_window
in_window_later u t h = ground arith

bounded_pass :
    (limit t : ℕ) (acc l : List ℕ)
    → length (recent t l) < limit
    → Tracks limit t acc l
    → (u : ℕ) → length (in_window u (acc ++ t ∷ [])) ≤ limit
bounded_pass limit t acc l few k u =
    let split = length-append (in_window u acc) (in_window u (t ∷ [])) in
    elim (Bool-cases (ltb u t)) [
      | inl before ↦
          rw (in_window-append u acc (t ∷ []))
            (omega (arith, k.bounded u, split, in_window_later u t (ltb→lt u t before)))
      | inr after ↦
          let later : t ≤ u = ltb-false→le u t after in
          rw (in_window-append u acc (t ∷ [])) (
            omega (
              arith,
              split,
              in_window_one u t,
              ap length (in_window-recent u acc (NotAfter-mono t u acc later k.past)),
              recent_mono t u acc later,
              ap length (k.agrees t (le_refl t)),
            ))
    ]

-- A request that passes at `t`, where fewer than `limit` passed in the minute before.
Tracks-pass :
    (limit t : ℕ) (acc l : List ℕ)
    → length (recent t l) < limit
    → Tracks limit t acc l
    → Tracks limit t (acc ++ t ∷ []) (l ++ t ∷ [])
Tracks-pass limit t acc l few k = record {
  past = All-append (λ ts. ts ≤ t) acc (t ∷ []) k.past (omega arith);
  bounded = bounded_pass limit t acc l few k;
  agrees = λ u h.
      recent-append u acc (t ∷ [])
      ∙ ap (λ xs. xs ++ recent u (t ∷ [])) (k.agrees u h)
      ∙ sym (recent-append u l (t ∷ []));
}

-- A request at `now` to an endpoint that admits at most `limit` per minute.
pub Tracks-visit :
    (limit t now : ℕ) (acc : List ℕ) (cfg : EndpointConfig) (o : Option Visitor)
    → cfg.requests_per_minute ≤ limit
    → 1 ≤ limit
    → t ≤ now
    → Tracks limit t acc (held o)
    → Tracks limit now
        (if (visit cfg now o).1 then acc ++ now ∷ [] else acc)
        (held (visit cfg now o).0)
unfolding visit
Tracks-visit limit t now acc cfg none small one h k =
    Tracks-pass limit now acc [] (unfold recent in omega arith)
      (Tracks-later limit t now acc [] h k)
Tracks-visit limit t now acc cfg (some v) small one h k =
    let here = Tracks-later limit t now acc v.timestamps h k in
    let trimmed = Tracks-recent limit now acc v.timestamps here in
    elim (Bool-cases (v.blocked && leb now (v.block_until * second))) [
      | inl closed ↦ simp closed here
      | inr open_now ↦
          elim (Bool-cases (leb cfg.requests_per_minute (length (recent now v.timestamps)))) [
            | inl full ↦ simp (open_now, full) trimmed
            | inr room ↦
                simp (open_now, room)
                  (Tracks-pass limit now acc (recent now v.timestamps)
                    (ground (arith, ap length (recent-recent now now v.timestamps (le_refl now))))
                    trimmed)
          ]
    ]

pub Tracks-tidy :
    (limit t now : ℕ) (acc : List ℕ) (o : Option Visitor)
    → t ≤ now
    → Tracks limit t acc (held o)
    → Tracks limit now acc (held (elim o [ none ↦ none | some v ↦ tidy now v ]))
unfolding tidy
Tracks-tidy limit t now acc none h k = Tracks-later limit t now acc [] h k
Tracks-tidy limit t now acc (some v) h k =
    let here = Tracks-later limit t now acc v.timestamps h k in
    let idle = length (recent now v.timestamps) == 0 in
    elim (Bool-cases (idle && not (v.blocked && leb now (v.block_until * second)))) [
      | inl gone ↦ simp gone (Tracks-cleared limit now acc v.timestamps (ground arith) here)
      | inr kept ↦ simp kept (Tracks-recent limit now acc v.timestamps here)
    ]
