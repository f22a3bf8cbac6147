-- ===== src/ApiKeys/Tests.antt =====
-- Keys on small inputs, and the theorems at concrete managers. The hash is the text itself and a
-- store is the number of its calls.
use obsidian.Common.Map.{lookup}
use obsidian.Common.{
  ℕ, suc, ◌+◌, ◌≤◌, ◌≡◌, refl, inl, inr, true, false, [], ◌∷◌, none, some, arith, Bytes, codes,
  same, same_iff, to_lower,
}
use obsidian.ApiKeys.{
  minute, key_not_found, key_disabled, persist_failed, ok, err, ApiKey, KeyUsage, KeyStore, Manager,
  plaintext_of, find_by_id, has_scope, is_expired, check_rate_limit,
}
use obsidian.ApiKeys.Validate.{validate_key, use_key, check_key, Accepted, validate_key-Accepted}
use obsidian.ApiKeys.Window.{accepted, accepted_window}
use obsidian.ApiKeys.Manage.{NewKey, generate_key, persist_key, revoke_key, delete_key}
use obsidian.ApiKeys.Life.{
  revoke_key-validate_key, delete_key-validate_key, generate_key-err, generate_key-validate_key,
}

abbrev plain_hash : Bytes → Bytes
plain_hash s = s

abbrev counting : KeyStore ℕ
counting = record {
  save_key = λ s key. (suc s, true);
  get_all_keys = λ s. none;
  delete_key = λ s h. (suc s, true);
  update_key_usage = λ s h at ip. (suc s, true);
}

-- A store that saves nothing.
abbrev broken : KeyStore ℕ
broken = record {
  save_key = λ s key. (suc s, false);
  get_all_keys = λ s. none;
  delete_key = λ s h. (suc s, false);
  update_key_usage = λ s h at ip. (suc s, false);
}

abbrev reader : ApiKey
reader = record {
  id = codes "01";
  name = codes "dashboard";
  key_hash = codes "obs_ab";
  key_prefix = codes "obs_ab";
  scopes = codes "read" ∷ [];
  created_at = 5;
  expires_at = some 900;
  last_used_at = none;
  last_used_ip = [];
  enabled = true;
  rate_limit = 2;
  description = [];
  created_by = codes "root";
}

abbrev known : Manager ℕ
known = record {
  keys = (codes "obs_ab", reader) ∷ [];
  prefixes = (codes "obs_ab", codes "obs_ab") ∷ [];
  usage = [];
  store = some 0;
}

abbrev wanted : NewKey
wanted = record {
  name = codes "export";
  scopes = codes "read" ∷ codes "admin" ∷ [];
  expires_in = some 100;
  rate_limit = 1;
  description = [];
  created_by = codes "root";
}

abbrev used_reader : ApiKey
used_reader = record reader { last_used_at = some 42; last_used_ip = codes "10.0.0.7" }

reader_accepted :
    (validate_key plain_hash counting known
      (codes "obs_ab")
      (codes "read")
      (codes "10.0.0.7")
      40
      41
      42).1
    ≡ ok used_reader
unfolding validate_key check_key use_key check_rate_limit is_expired has_scope lookup same
reader_accepted = refl

validate_key-Accepted_example :
    (key : ApiKey) × Accepted plain_hash counting known
      (codes "obs_ab")
      (codes "read")
      (codes "10.0.0.7")
      40
      41
      42
      used_reader
      key
validate_key-Accepted_example =
    validate_key-Accepted plain_hash counting known (codes "obs_ab") (codes "read")
      (codes "10.0.0.7") 40 41 42 used_reader reader_accepted

unused :
    (u : KeyUsage) → lookup (codes "obs_ab") known.usage ≡ some u → u.window_start + minute ≤ 10
unfolding lookup
unused u h = cc

accepted_window_example : accepted known (codes "obs_ab") 2 (10 ∷ 11 ∷ 12 ∷ []) ≡ 2
accepted_window_example =
    accepted_window known (codes "obs_ab") 2 10 (11 ∷ 12 ∷ []) (omega arith) unused
      (omega arith, (omega arith, tt))

reader_found : find_by_id (codes "01") known.keys ≡ some (codes "obs_ab", reader)
unfolding find_by_id same
reader_found = refl

revoke_key-validate_key_example :
    (validate_key plain_hash broken
      (revoke_key plain_hash plain_hash broken known (codes "01")).0
      (codes "obs_ab")
      []
      []
      40
      41
      42).1
    ≡ err key_disabled
revoke_key-validate_key_example =
    revoke_key-validate_key plain_hash plain_hash broken known (codes "01") (codes "obs_ab") reader
      [] [] 40 41 42 reader_found

delete_key-validate_key_example :
    (validate_key plain_hash counting
      (delete_key plain_hash plain_hash counting known (codes "01")).0
      (codes "obs_ab")
      []
      []
      40
      41
      42).1
    ≡ err key_not_found
delete_key-validate_key_example =
    delete_key-validate_key plain_hash plain_hash counting known (codes "01") (codes "obs_ab")
      reader [] [] 40 41 42 reader_found

not_saved :
    (generate_key plain_hash plain_hash broken known wanted
      (some (codes "cd"))
      (some (codes "02"))
      7).1
    ≡ err persist_failed
unfolding generate_key persist_key
not_saved = refl

unknown_text :
    (r : Bytes)
    → some (codes "cd") ≡ some r
    → lookup (plain_hash (plaintext_of (plain_hash r))) known.keys ≡ none
unfolding lookup same
unknown_text r e = ground (arith, e, same_iff (codes "ab") r)

generate_key-err_example :
    lookup
      (codes "obs_ab")
      (generate_key plain_hash plain_hash broken known wanted
        (some (codes "cd"))
        (some (codes "02"))
        7).0.keys
    ≡ lookup (codes "obs_ab") known.keys
generate_key-err_example =
    generate_key-err plain_hash plain_hash broken known wanted (some (codes "cd"))
      (some (codes "02")) 7 persist_failed (codes "obs_ab") not_saved unknown_text

abbrev made_key : Bytes × ApiKey
made_key = (
  codes "obs_cd",
  record {
    id = codes "02";
    name = codes "export";
    key_hash = codes "obs_cd";
    key_prefix = codes "obs_cd";
    scopes = codes "read" ∷ codes "admin" ∷ [];
    created_at = 7;
    expires_at = some 107;
    last_used_at = none;
    last_used_ip = [];
    enabled = true;
    rate_limit = 1;
    description = [];
    created_by = codes "root";
  },
)

saved :
    (generate_key plain_hash plain_hash counting known wanted
      (some (codes "cd"))
      (some (codes "02"))
      7).1
    ≡ ok made_key
unfolding generate_key persist_key
saved = refl

in_time : (d : ℕ) → some 100 ≡ some d → 40 ≤ 7 + d
in_time d e = ground (arith, e)

generate_key-validate_key_example :
    (validate_key plain_hash counting
      (generate_key plain_hash plain_hash counting known wanted
        (some (codes "cd"))
        (some (codes "02"))
        7).0
      (codes "obs_cd")
      (codes "write")
      []
      40
      41
      42).1
    ≡ ok (record (made_key.1) { last_used_at = some 42; last_used_ip = [] })
unfolding lookup
generate_key-validate_key_example =
    generate_key-validate_key plain_hash plain_hash counting known wanted (some (codes "cd"))
      (some (codes "02")) 7 (codes "obs_cd") made_key.1 (codes "write") [] 40 41 42 saved refl
      (inr (inr (inr (inl refl)))) in_time

lowered : to_lower (codes "Bearer") ≡ codes "bearer"
unfolding to_lower
lowered = refl
