-- ===== src/Gate/Allow.antt =====
-- `ipAllowlistMiddleware` of cmd/obsidian/main.go, with a manager of the list.
use obsidian.Common.{
  ℕ, ◌≡◌, ◌≢◌, Bool, true, not, ◌&&◌, ◌||◌, [], Bytes, codes, same, has_prefix, if◌then◌else◌,
}
use obsidian.Gate.{Request}
use obsidian.IpAllow.Api.{extract_ip, is_allowed}
use obsidian.IpAllow.{AllowlistStore, IpLib, Manager, check_bypass_header}

unfoldable pub is_admin_path : Bytes → Bool
is_admin_path path =
    has_prefix path (codes "/api/admin/")
    || has_prefix path (codes "/api/security/")
    || has_prefix path (codes "/api/apikeys")

module _ {S Ip Net : Type 0} (net : IpLib Ip Net) (st : AllowlistStore S Net) where
  -- The answer is whether `next` is called; it is a 403 otherwise.
  unfoldable pub ip_allowlist_middleware : Manager S Net → Request → ℕ → Manager S Net × Bool
  ip_allowlist_middleware m r now =
      if m.config.enabled && is_admin_path r.path
      then (let (m', allowed) =
            is_allowed net st m (extract_ip r.remote_addr r.forwarded_for) now in
          if allowed
          then (m', true)
          else (m', not (same r.ip_bypass []) && check_bypass_header m' r.ip_bypass))
      else (m, true)

  -- The request has the secret in X-IP-Bypass, and the configuration has a secret and names a header.
  abbrev pub Bypasses : Manager S Net → Request → Type 0
  Bypasses m r =
      (m.config.bypass_header ≢ [])
      × (m.config.bypass_secret ≢ [])
      × (r.ip_bypass ≡ m.config.bypass_secret)
