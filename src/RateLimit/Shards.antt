-- ===== src/RateLimit/Shards.antt =====
-- The 256 shards of internal/app/ratelimit/ratelimit.go act as one map of visitors, and
-- `totalVisitors` counts its entries: the laws of `find`, and the writes that keep this valid.
use obsidian.Common.Int.{ℤ, pos, ◌+ℤ◌, pos-add}
use obsidian.Common.Map.{insert, IsMap, lookup-insert, insert-IsMap, length-insert}
use obsidian.Common.{
  ℕ, zero, suc, ◌+◌, ◌%◌, ◌<◌, ◌≡◌, refl, ◌∙◌, inl, inr, List, [], ◌∷◌, none, some, arith, Bytes,
  same, same_iff, length, get_or, set, replicate, All, All-get_or, All-set, length-set,
  get_or-set_self, get_or-set_ne, if◌then◌else◌, Bool-cases, ◌==◌, ==_iff,
}
use obsidian.RateLimit.{num_shards, Shard, Visitor, RateLimiter}
use obsidian.RateLimit.Visitors.{get_shard, put_shard, find, store}

abbrev pub visitor_count : List Shard → ℕ
visitor_count [] = 0
visitor_count (sh ∷ shs) = length sh + visitor_count shs

-- There are 256 shards, each is a map, and `totalVisitors` is the number of visitors in them.
pub record IsValid {S : Type 0} (rl : RateLimiter S) : Type 0 where
  pub sized : length rl.shards ≡ num_shards
  pub maps : All IsMap rl.shards
  pub counted : rl.total_visitors ≡ pos (visitor_count rl.shards)

visitor_count-set :
    (shs : List Shard) (i : ℕ) (sh : Shard)
    → i < length shs
    → visitor_count (set shs i sh) + length (get_or shs i []) ≡ visitor_count shs + length sh
visitor_count-set [] i sh h = elim h [ ]
visitor_count-set (x ∷ shs) zero sh h = omega arith
visitor_count-set (x ∷ shs) (suc i) sh h = omega (arith, visitor_count-set shs i sh (omega arith))

visitor_count-replicate : (n : ℕ) → visitor_count (replicate n []) ≡ 0
visitor_count-replicate zero = refl
visitor_count-replicate (suc n) = omega (arith, visitor_count-replicate n)

module _ (hash : Bytes → ℕ) {S : Type 0} where
  pub get_shard-put_shard :
      (rl : RateLimiter S) (j ip : Bytes) (sh : Shard)
      → length rl.shards ≡ num_shards
      → get_shard hash (put_shard hash rl j sh) ip
        ≡ (if hash j % num_shards == hash ip % num_shards then sh else get_shard hash rl ip)
  unfolding get_shard put_shard
  get_shard-put_shard rl j ip sh sized =
      elim (Bool-cases (hash j % num_shards == hash ip % num_shards)) [
        | inl e ↦ rw e (
            rw (← (==_iff (hash j % num_shards) (hash ip % num_shards)).0 e)
              (get_or-set_self rl.shards (hash j % num_shards) sh [] (omega arith)))
        | inr e ↦ rw e (
            get_or-set_ne rl.shards (hash j % num_shards) (hash ip % num_shards) sh []
              (λ s. ground (arith, s)))
      ]

  -- The shards act as one map.
  pub find-store :
      (rl : RateLimiter S) (j ip : Bytes) (v : Visitor)
      → length rl.shards ≡ num_shards
      → find hash (store hash rl j v) ip ≡ (if same j ip then some v else find hash rl ip)
  unfolding find store get_shard put_shard
  find-store rl j ip v sized =
      let sh = get_shard hash rl j in
      ground (
        arith,
        get_shard-put_shard rl j ip (insert j v sh) sized,
        lookup-insert j ip v sh,
        same_iff j ip,
      )

  -- A write of a shard changes the count by the sizes of that shard.
  pub visitor_count-put_shard :
      (rl : RateLimiter S) (ip : Bytes) (sh : Shard)
      → length rl.shards ≡ num_shards
      → visitor_count (put_shard hash rl ip sh).shards + length (get_shard hash rl ip)
        ≡ visitor_count rl.shards + length sh
  unfolding get_shard put_shard
  visitor_count-put_shard rl ip sh sized =
      visitor_count-set rl.shards (hash ip % num_shards) sh (omega arith)

  pub get_shard-IsMap :
      (rl : RateLimiter S) (ip : Bytes) → All IsMap rl.shards → IsMap (get_shard hash rl ip)
  unfolding get_shard
  get_shard-IsMap rl ip h = All-get_or IsMap rl.shards (hash ip % num_shards) [] h tt

  -- A write of a shard keeps the limiter valid, if the counter is changed by as much.
  pub put_shard-IsValid :
      (rl : RateLimiter S) (ip : Bytes) (sh : Shard) (total : ℤ)
      → IsValid rl
      → IsMap sh
      → ((n : ℕ)
          → n + length (get_shard hash rl ip) ≡ visitor_count rl.shards + length sh
          → total ≡ pos n)
      → IsValid (record (put_shard hash rl ip sh) { total_visitors = total })
  put_shard-IsValid rl ip sh total v m count = record {
    sized = unfold put_shard in length-set rl.shards (hash ip % num_shards) sh ∙ v.sized;
    maps = unfold put_shard in All-set IsMap rl.shards (hash ip % num_shards) sh v.maps m;
    counted = count _ (visitor_count-put_shard rl ip sh v.sized);
  }

  -- A known visitor's record is replaced: the count stays.
  pub store-IsValid :
      (rl : RateLimiter S) (ip : Bytes) (old v : Visitor)
      → find hash rl ip ≡ some old
      → IsValid rl
      → IsValid (store hash rl ip v)
  unfolding store find put_shard
  store-IsValid rl ip old v known h =
      let sh = get_shard hash rl ip in
      put_shard-IsValid rl ip (insert ip v sh) rl.total_visitors h
        (insert-IsMap ip v sh (get_shard-IsMap rl ip h.maps))
        (λ n e. ground (arith, h.counted, length-insert ip v sh))

  pub store_new-IsValid :
      (rl : RateLimiter S) (ip : Bytes) (v : Visitor)
      → find hash rl ip ≡ none
      → IsValid rl
      → IsValid (record (store hash rl ip v) { total_visitors = rl.total_visitors +ℤ pos 1 })
  unfolding store find put_shard
  store_new-IsValid rl ip v new h =
      let sh = get_shard hash rl ip in
      put_shard-IsValid rl ip (insert ip v sh) (rl.total_visitors +ℤ pos 1) h
        (insert-IsMap ip v sh (get_shard-IsMap rl ip h.maps))
        (λ n e.
          ground (arith, h.counted, length-insert ip v sh, pos-add (visitor_count rl.shards) 1))
