-- ===== src/Waf/Tests.antt =====
-- The middleware on small inputs. A transaction of the engine is a number, and its rule 949110
-- interrupts every request.
use obsidian.Common.Int.{pos}
use obsidian.Common.Map.{lookup}
use obsidian.Common.{suc, ℕ, ◌≡◌, refl, true, [], ◌∷◌, none, some, Bytes, codes, same, has_prefix}
use obsidian.Security
use obsidian.Security.{NetLib}
use obsidian.Store
use obsidian.Threat.{ThreatEntry, check_ip, custom_entry}
use obsidian.Waf.{Engine, HttpRequest, HttpResponse, Waf}
use obsidian.Waf.Attack.{
  classify_rule_id, first_attack, is_attack_rule, is_crs_evaluation_rule, at_least, ranges,
  resolve_attack_rule_id,
}
use obsidian.Waf.Flow.{client_ip, has_suffix, is_static_asset, waf_middleware}
use obsidian.Waf.Refused.{is_refused, waf_middleware-body}

abbrev texts : NetLib Bytes Bytes
texts = record {
  parse_ip = λ s. some s;
  parse_cidr = λ s. some s;
  net_contains = λ n s. has_prefix s n;
}

abbrev strict : Engine ℕ
strict = record {
  new_transaction = 0;
  process_connection = λ tx a. tx;
  process_uri = λ tx u m p. tx;
  add_request_header = λ tx k v. suc tx;
  process_request_headers = λ tx. (tx, none);
  process_request_body = λ tx. (tx, some (record { rule_id = pos 949110; action = codes "deny" }));
  add_response_header = λ tx k v. tx;
  process_response_headers = λ tx s p. (tx, none);
  is_interrupted = λ tx. true;
  matched_rules = λ tx. pos 942100 ∷ pos 949110 ∷ [];
}

abbrev running : Waf ℕ Bytes
running = record {
  security = record { trusted_nets = []; trusted_ips = [] };
  intel = record {
    blocked_ips = (codes "192.0.2.7", custom_entry (codes "192.0.2.7") (codes "scan") 3) ∷ [];
    cidr_blocks = [];
    feeds = [];
    last_update = 0;
  };
  store = record {
    files = 0;
    state = record {
      logs = [];
      rules = [];
      stats = record {
        total_requests = 2;
        blocked_requests = 1;
        flagged_requests = 0;
        safe_requests = 1;
        active_rules_count = 0;
        total_response_time_ns = 0;
        response_count = 0;
      };
    };
    has_rules_file = true;
    has_crs_path = true;
    crs_on = true;
    custom_rules = [];
    crs_rules = [];
  };
  alerts = record {
    default_rate_limit = record { max_per_minute = 10; max_per_hour = 100 };
    buffer_size = 2;
    webhooks = [];
    states = [];
    metrics = record { total_sent = 0; total_failed = 0; total_rate_limited = 0 };
    queue = [];
  };
}

abbrev request : HttpRequest
request = record {
  remote_addr = codes "192.0.2.7:80";
  forwarded_for = [];
  real_ip = [];
  method = codes "POST";
  url = codes "/search";
  path = codes "/search";
  proto = codes "HTTP/1.1";
  headers = (codes "Accept", codes "*/*") ∷ [];
  body = codes "q=1";
}

-- The handlers answer 200 and change nothing.
abbrev hello : Waf ℕ Bytes → HttpRequest → Waf ℕ Bytes × HttpResponse
hello w r = (w, record { status = 200; headers = []; body = codes "hello" })

abbrev known : ThreatEntry
known = custom_entry (codes "192.0.2.7") (codes "scan") 3

put_down_to_942100 : resolve_attack_rule_id (pos 949110) (pos 949110 ∷ pos 942100 ∷ []) ≡ pos 942100
unfolding resolve_attack_rule_id first_attack is_attack_rule is_crs_evaluation_rule at_least ranges
    Store.same_id
put_down_to_942100 = refl

sql_injection : classify_rule_id (pos 942100) ≡ codes "SQL Injection"
unfolding classify_rule_id ranges
sql_injection = refl

style_sheet : is_static_asset (codes "/a.css") ≡ true
unfolding is_static_asset has_suffix has_prefix same
style_sheet = refl

known_held :
    check_ip texts running.intel (client_ip texts strict hello running request) ≡ some known
unfolding check_ip client_ip Security.extract_client_ip Security.split_host_port
    Security.split_first Security.split_last Security.trim_open Security.trim_close lookup
    has_prefix same
known_held = refl

waf_middleware-body_example :
    is_refused
      (waf_middleware texts strict hello running
        (record request { body = codes "q=' or 1" })
        7
        (codes "now")).1
    ≡ is_refused (waf_middleware texts strict hello running request 7 (codes "now")).1
waf_middleware-body_example =
    waf_middleware-body texts strict hello running request (codes "q=' or 1") 7 (codes "now")
