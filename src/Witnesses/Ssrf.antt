-- ===== src/Witnesses/Ssrf.antt =====
-- The guard of downloads.
use dingtalk_channel_sdk_go.Prelude.{
  any, All, bytes, ◌==◌, ◌+◌, ◌*◌, ◌^◌, ◌≡◌, refl, ◌⊎◌, true, some, List, [], ◌∷◌,
}
use dingtalk_channel_sdk_go.Types.Errors.{ssrf_blocked}
use dingtalk_channel_sdk_go.Safety.Ssrf.{
  quad, blocked_v4_blocks, holds, ipv4_blocked, Ip, v4, v6, to4, ip_blocked, blocked_as,
  host_allowed, Url, check_ips, assert_public_url,
}
use dingtalk_channel_sdk_go.Safety.Ssrf.Public.{IsPublic, assert_public_url-IsPublic}

abbrev public_url : Url
public_url = record {
  scheme = bytes "https";
  host = bytes "cdn.example.com";
  ips = some (v4 (quad 93 184 216 34) ∷ []);
}

assert_public_url-IsPublic_example :
    (parsed : Url) × (some public_url ≡ some parsed)
    × ((parsed.scheme ≡ bytes "http") ⊎ (parsed.scheme ≡ bytes "https"))
    × ((host_allowed parsed.host [] ≡ true)
        ⊎ ((ips : List Ip) × (parsed.ips ≡ some ips) × All IsPublic ips))
unfolding assert_public_url host_allowed any check_ips ip_blocked ipv4_blocked blocked_v4_blocks
    holds quad bytes ◌==◌
assert_public_url-IsPublic_example = assert_public_url-IsPublic (some public_url) [] refl

-- an IPv6 address that maps a private one is refused
mapped_private :
    assert_public_url
      (some (record public_url { ips = some (v6 (0xFFFF * 2 ^ 32 + quad 10 0 0 1) ∷ []) }))
      []
    ≡ some ssrf_blocked
unfolding assert_public_url host_allowed any check_ips ip_blocked blocked_as to4 ipv4_blocked
    blocked_v4_blocks holds quad bytes ◌==◌
mapped_private = refl
