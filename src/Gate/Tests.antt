-- ===== src/Gate/Tests.antt =====
-- The guards on small inputs. The hash is the text itself, a store is the number of its calls, and
-- texts are encoded by shifting each byte.
use obsidian.ApiKeys.Validate.{In, check_key, use_key, validate_key}
use obsidian.ApiKeys.{ApiKey, KeyStore, has_scope, is_expired, ok, scope_admin}
use obsidian.Common.Map.{insert, lookup}
use obsidian.Common.{
  ℕ, zero, suc, ◌+◌, List, if◌then◌else◌, ◌-◌, ◌*◌, ◌≢◌, ◌≡◌, ◌⊎◌, inl, inr, refl, ap, true, [],
  ◌∷◌, none, some, arith, map, All, Bytes, codes, has_prefix, same, split_on, to_lower, trim_prefix,
}
use obsidian.Gate.Keys.{auth_or_api_key_middleware, either_client_ip, key_claims}
use obsidian.Gate.Routes.{
  ByKey, ByToken, rbac_middleware-auth_or_api_key_middleware, validate_key-rbac_middleware,
}
use obsidian.Gate.Token.{Faithful, claims_of, generate_jwt-verify_jwt, object, token_members}
use obsidian.Gate.{
  Claims, JwtLib, Request, auth_middleware, equal_fold, generate_jwt, passed, rbac_middleware,
  refused, role_admin, role_allows, verify_jwt, verify_parts,
}
use obsidian.ApiKeys
use obsidian.IpAllow.{AllowlistStore, IpLib, Manager, default_config}
use obsidian.RateLimit.{second}

abbrev ann : Claims
ann = record { user_id = 1; username = codes "ann"; role = codes "ADMIN"; exp = 100 }

abbrev shifting : JwtLib
shifting = record {
  sign = λ s. codes "sig";
  encode = map (λ c. c + 50);
  decode = λ s. some (map (λ c. c - 50) s);
  parse_claims = λ s. some ann;
  decimal = λ n. (48 + n) ∷ [];
}

map-no_dot : (s : Bytes) → All (λ c. c ≢ b'.') (map (λ c. c + 50) s)
map-no_dot [] = tt
map-no_dot (c ∷ s) = (omega arith, map-no_dot s)

map-map : (s : Bytes) → map (λ c. c - 50) (map (λ c. c + 50) s) ≡ s
map-map [] = refl
map-map (c ∷ s) = ground (arith, map-map s)

-- A reader of flat objects: the pieces between quotes, and numbers with a stroke for each unit.
abbrev strokes : ℕ → Bytes
strokes zero = []
strokes (suc n) = b'1' ∷ strokes n

unfoldable count_strokes : Bytes → ℕ
count_strokes [] = 0
count_strokes (c ∷ s) = (if same (c ∷ []) (codes "1") then 1 else 0) + count_strokes s

-- What stands after a name: the number, or after the colon the text.
unfoldable number_of : Bytes → List Bytes → ℕ
number_of name [] = 0
number_of name (p ∷ []) = 0
number_of name (p ∷ v ∷ ps) =
    let later = number_of name (v ∷ ps) in if same p name then count_strokes v else later

unfoldable text_of : Bytes → List Bytes → Bytes
text_of name [] = []
text_of name (p ∷ []) = []
text_of name (p ∷ c ∷ []) = []
text_of name (p ∷ c ∷ v ∷ ps) =
    let later = text_of name (c ∷ v ∷ ps) in if same p name then v else later

abbrev reading : JwtLib
reading = record shifting {
  parse_claims = λ s. some (record {
    user_id = number_of (codes "user_id") (split_on b'"' s);
    username = text_of (codes "username") (split_on b'"' s);
    role = text_of (codes "role") (split_on b'"' s);
    exp = number_of (codes "exp") (split_on b'"' s);
  });
  decimal = strokes;
}

reading-Faithful : Faithful reading
reading-Faithful = record {
  encode_no_dot = map-no_dot;
  sign_no_dot = λ s. (omega arith, (omega arith, (omega arith, tt)));
  decode-encode = λ s. ap some (map-map s);
}

ann_read :
    reading.parse_claims (object reading (token_members 1 (codes "ann") (codes "ADMIN") 4 10))
    ≡ some (claims_of 1 (codes "ann") (codes "ADMIN") 10)
unfolding number_of text_of count_strokes split_on same
ann_read = refl

generate_jwt-verify_jwt_example :
    verify_jwt reading
      (generate_jwt reading 1 (codes "ann") (codes "ADMIN") (6 * second) (4 * second))
      7
    ≡ some (claims_of 1 (codes "ann") (codes "ADMIN") 10)
generate_jwt-verify_jwt_example =
    generate_jwt-verify_jwt reading 1 (codes "ann") (codes "ADMIN") (6 * second) (4 * second) 7
      reading-Faithful ann_read (omega arith)

abbrev bare : Request
bare = record {
  path = codes "/api/admin/audit";
  remote_addr = codes "10.0.0.7:9";
  forwarded_for = [];
  api_key = [];
  authorization = codes "Bearer h.p.sig";
  query_token = [];
  ip_bypass = [];
}

bare_passes : auth_middleware shifting bare 50 51 ≡ passed ann
unfolding auth_middleware verify_jwt verify_parts has_prefix trim_prefix split_on same
bare_passes = refl

abbrev plain_hash : Bytes → Bytes
plain_hash s = s

abbrev counting : KeyStore ℕ
counting = record {
  save_key = λ s key. (suc s, true);
  get_all_keys = λ s. none;
  delete_key = λ s h. (suc s, true);
  update_key_usage = λ s h at ip. (suc s, true);
}

abbrev writer : ApiKey
writer = record {
  id = codes "01";
  name = codes "ci";
  key_hash = codes "obs_ab";
  key_prefix = codes "obs_ab";
  scopes = codes "write" ∷ [];
  created_at = 5;
  expires_at = none;
  last_used_at = none;
  last_used_ip = [];
  enabled = true;
  rate_limit = 0;
  description = [];
  created_by = codes "root";
}

abbrev known : ApiKeys.Manager ℕ
known = record { keys = (codes "obs_ab", writer) ∷ []; prefixes = []; usage = []; store = some 0 }

admin_bare_passes :
    rbac_middleware role_admin
      (auth_or_api_key_middleware plain_hash counting shifting known
        (codes "write")
        bare
        7
        8
        9
        50
        51).1
    ≡ passed ann
unfolding rbac_middleware auth_or_api_key_middleware auth_middleware verify_jwt verify_parts
    has_prefix trim_prefix split_on same role_allows to_lower
admin_bare_passes = refl

rbac_middleware-auth_or_api_key_middleware_example :
    ((used : ApiKey) × (key : ApiKey) × ByKey plain_hash counting shifting known
        (codes "write")
        bare
        7
        8
        9
        used
        key
      × In scope_admin key.scopes
      × (ann ≡ key_claims used))
    ⊎ (ByToken shifting bare 50 51 ann × (equal_fold (codes "ADMIN") role_admin ≡ true))
rbac_middleware-auth_or_api_key_middleware_example =
    rbac_middleware-auth_or_api_key_middleware plain_hash counting shifting known (codes "write")
      bare 7 8 9 50 51 ann admin_bare_passes

abbrev with_key : Request
with_key = record bare { api_key = codes "obs_ab"; path = codes "/api/rules/create" }

abbrev used_writer : ApiKey
used_writer = record writer { last_used_at = some 9; last_used_ip = codes "10.0.0.7:9" }

writer_accepted :
    (validate_key plain_hash counting known
      (codes "obs_ab")
      (codes "write")
      (either_client_ip with_key)
      7
      8
      9).1
    ≡ ok used_writer
unfolding validate_key check_key use_key has_scope is_expired lookup insert same either_client_ip
writer_accepted = refl

validate_key-rbac_middleware_example :
    rbac_middleware role_admin
      (auth_or_api_key_middleware plain_hash counting shifting known
        (codes "write")
        with_key
        7
        8
        9
        50
        51).1
    ≡ refused 403
validate_key-rbac_middleware_example =
    validate_key-rbac_middleware plain_hash counting shifting known (codes "write") with_key 7 8 9
      50 51 used_writer (λ e. ground arith) (λ i. elim i [ inl e ↦ ground arith | inr b ↦ b ])
      writer_accepted

abbrev texts : IpLib Bytes Bytes
texts = record {
  parse_ip = λ s. some s;
  ip_string = λ s. s;
  is_loopback = λ s. has_prefix s (codes "127.");
  parse_cidr = λ s. some s;
  net_string = λ s. s;
  net_contains = λ n s. has_prefix s n;
}

abbrev entries_of : AllowlistStore ℕ Bytes
entries_of = record {
  save_entry = λ s e. (suc s, true);
  get_all_entries = λ s. none;
  delete_entry = λ s id. (suc s, true);
  update_hit = λ s id at. (suc s, true);
}

abbrev strict : Manager ℕ Bytes
strict = record {
  heap = [];
  entries = [];
  cidrs = [];
  store = some 0;
  config = record default_config { enabled = true };
}
