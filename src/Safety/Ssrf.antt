-- ===== src/Safety/Ssrf.antt =====
-- internal/safety/ssrf_guard.go. Parsing of URLs and resolution of names are libraries, whose results
-- are arguments. An IPv4 address is a number below 2 ^ 32, an IPv6 address one below 2 ^ 128.
pub mod Public
use dingtalk_channel_sdk_go.Prelude.{
  ltb, eqb, if◌then◌else◌, drop, any, Text, bytes, ◌==◌, is_empty, starts_with, to_lower, ℕ, zero,
  suc, ◌+◌, ◌-◌, ◌*◌, ◌/◌, ◌%◌, ◌^◌, Bool, true, not, ◌&&◌, ◌||◌, Option, none, some, List, [], ◌∷◌,
  arith,
}
use dingtalk_channel_sdk_go.Types.Errors.{ErrorCode, ssrf_blocked}

unfoldable pub quad : ℕ → ℕ → ℕ → ℕ → ℕ
quad a b c d = ((a * 256 + b) * 256 + c) * 256 + d

-- a network, with the length of its prefix
pub record Block : Type 0 where
  pub base : ℕ
  pub prefix : ℕ

abbrev block : ℕ → ℕ → ℕ → ℕ → Block
block a b c prefix = record { base = quad a b c 0; prefix = prefix }

-- `blockedV4Blocks`
unfoldable pub blocked_v4_blocks : List Block
unfolding quad
blocked_v4_blocks =
    block 0 0 0 8
    ∷ block 10 0 0 8
    ∷ block 127 0 0 8
    ∷ block 169 254 0 16
    ∷ block 172 16 0 12
    ∷ block 192 168 0 16
    ∷ block 100 64 0 10
    ∷ block 192 0 0 24
    ∷ block 192 0 2 24
    ∷ block 198 18 0 15
    ∷ block 198 51 100 24
    ∷ block 203 0 113 24
    ∷ block 224 0 0 4
    ∷ block 240 0 0 4
    ∷ []

-- `block.Contains(ip)`: the prefixes are the same
unfoldable pub holds : ℕ → Block → Bool
holds ip b = eqb (ip / 2 ^ (32 - b.prefix)) (b.base / 2 ^ (32 - b.prefix))

unfoldable pub ipv4_blocked : ℕ → Bool
ipv4_blocked ip = any (holds ip) blocked_v4_blocks

pub data Ip : Type 0 where
  v4 v6 : ℕ → Ip

-- `ip.To4()`: also of an IPv6 address that maps an IPv4 one
unfoldable pub to4 : Ip → Option ℕ
to4 (v4 n) = some n
to4 (v6 n) = if eqb (n / 2 ^ 32) 0xFFFF then some (n % 2 ^ 32) else none

-- the hexadecimal digits of a number below 16 ^ fuel
unfoldable pub hex : ℕ → ℕ → Text → Text
hex zero n rest = rest
hex (suc fuel) n rest =
    let digit = if ltb (n % 16) 10 then 48 + n % 16 else 87 + n % 16 in
    let more = hex fuel (n / 16) (digit ∷ rest) in if ltb n 16 then digit ∷ rest else more

-- The text of an IPv6 address up to its first colon; it starts with one if the first group is left
-- out. The tests look no further.
unfoldable pub first_group : ℕ → Text
unfolding hex
first_group n = if eqb (n / 2 ^ 112) 0 then b':' ∷ [] else hex 4 (n / 2 ^ 112) (b':' ∷ [])

-- loopback, unspecified, link local, link-local multicast, private, multicast
unfoldable pub is_special : ℕ → Bool
is_special n =
    eqb n 1
    || (eqb n 0
        || (eqb (n / 2 ^ 118) 0x3FA
            || ((eqb (n / 2 ^ 120) 0xFF && eqb (n / 2 ^ 112 % 16) 2)
                || (eqb (n / 2 ^ 121) 0x7E || eqb (n / 2 ^ 120) 0xFF))))

unfoldable pub has_local_prefix : Text → Bool
unfolding bytes
has_local_prefix lower =
    starts_with (bytes "fe80:") lower
    || starts_with (bytes "fc") lower
    || starts_with (bytes "fd") lower
    || starts_with (bytes "ff") lower

unfoldable pub ipv6_blocked : ℕ → Bool
ipv6_blocked n =
    if is_special n
    then true
    else elim (to4 (v6 n)) [ some m ↦ ipv4_blocked m | none ↦ has_local_prefix (first_group n) ]

-- the test of the loop over the addresses: an address that maps an IPv4 one is tested as that
unfoldable pub blocked_as : ℕ → Option ℕ → Bool
blocked_as n none = ipv6_blocked n
blocked_as n (some m) = ipv4_blocked m

unfoldable pub ip_blocked : Ip → Bool
unfolding blocked_as
ip_blocked (v4 n) = ipv4_blocked n
ip_blocked (v6 n) = blocked_as n (to4 (v6 n))

-- `strings.TrimSuffix(s, ".")`
unfoldable pub trim_dot : Text → Text
trim_dot [] = []
trim_dot (c ∷ s) = if eqb c 46 && is_empty s then [] else c ∷ trim_dot s

-- `strings.HasSuffix(s, suffix)`
unfoldable pub ends_with : Text → Text → Bool
ends_with suffix [] = is_empty suffix
ends_with suffix (c ∷ s) = suffix == c ∷ s || ends_with suffix s

-- an entry of the allowlist matches: the host itself, or `*.` and a suffix
unfoldable pub entry_allows : Text → Text → Bool
unfolding trim_dot ends_with bytes
entry_allows h entry =
    let e = to_lower (trim_dot entry) in
    h == e || (starts_with (bytes "*.") e && ends_with (drop 1 e) h)

unfoldable pub host_allowed : Text → List Text → Bool
host_allowed host allowlist =
    not (is_empty host) && any (entry_allows (to_lower (trim_dot host))) allowlist

-- A parsed URL, with what its host comes to: an address, or the answer of the resolver, which is
-- `none` if it fails.
pub record Url : Type 0 where
  pub scheme : Text
  pub host : Text
  pub ips : Option (List Ip)

unfoldable pub check_ips : Option (List Ip) → Option ErrorCode
check_ips none = some ssrf_blocked
check_ips (some ips) = if any ip_blocked ips then some ssrf_blocked else none

-- `AssertPublicURLWithAllowlist`; `none` is a URL that cannot be parsed
unfoldable pub assert_public_url : Option Url → List Text → Option ErrorCode
assert_public_url none allowlist = some ssrf_blocked
assert_public_url (some u) allowlist =
    if not (u.scheme == bytes "http" || u.scheme == bytes "https")
    then some ssrf_blocked
    else (if host_allowed u.host allowlist then none else check_ips u.ips)
