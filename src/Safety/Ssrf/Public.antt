-- ===== src/Safety/Ssrf/Public.antt =====
-- A URL that passes leads to public addresses.
use dingtalk_channel_sdk_go.Prelude.{
  ltb, eqb, if◌then◌else◌, ltb→lt, Bool-cases, some_inj, any, All, Text, bytes, ◌==◌, eq_of_==, ℕ,
  suc, ◌+◌, ◌-◌, ◌*◌, ◌/◌, ◌%◌, ◌^◌, ◌≤◌, ◌<◌, ◌≡◌, refl, subst, ◌⊎◌, inl, inr, Bool, true, false,
  not, ◌&&◌, ◌||◌, Option, none, some, List, [], ◌∷◌, map, arith,
}
use native.Mathlib.Nat.{div-lt_iff_lt-mul, le-div_iff_mul-le, pow-le-pow_right}
use dingtalk_channel_sdk_go.Types.Errors.{ErrorCode, ssrf_blocked}
use dingtalk_channel_sdk_go.Safety.Ssrf.{
  quad, Block, blocked_v4_blocks, holds, ipv4_blocked, Ip, v4, v6, to4, is_special, ipv6_blocked,
  blocked_as, ip_blocked, host_allowed, Url, check_ips, assert_public_url,
}

-- a range of addresses, with its last one
abbrev pub Range : Type 0
Range = ℕ × ℕ

abbrev pub Outside : ℕ → Range → Type 0
Outside n (first, last) = (n < first) ⊎ (last < n)

-- The reserved IPv4 ranges, by their first and last addresses.
unfoldable pub reserved : List Range
unfolding quad
reserved =
    (quad 0 0 0 0, quad 0 255 255 255)
    ∷ (quad 10 0 0 0, quad 10 255 255 255)
    ∷ (quad 127 0 0 0, quad 127 255 255 255)
    ∷ (quad 169 254 0 0, quad 169 254 255 255)
    ∷ (quad 172 16 0 0, quad 172 31 255 255)
    ∷ (quad 192 168 0 0, quad 192 168 255 255)
    ∷ (quad 100 64 0 0, quad 100 127 255 255)
    ∷ (quad 192 0 0 0, quad 192 0 0 255)
    ∷ (quad 192 0 2 0, quad 192 0 2 255)
    ∷ (quad 198 18 0 0, quad 198 19 255 255)
    ∷ (quad 198 51 100 0, quad 198 51 100 255)
    ∷ (quad 203 0 113 0, quad 203 0 113 255)
    ∷ (quad 224 0 0 0, quad 239 255 255 255)
    ∷ (quad 240 0 0 0, quad 255 255 255 255)
    ∷ []

-- the reserved IPv6 ranges: unspecified and loopback, unique local, link local, multicast
unfoldable pub reserved_v6 : List Range
reserved_v6 =
    (0, 1)
    ∷ (0xFC00 * 2 ^ 112, 0xFE00 * 2 ^ 112 - 1)
    ∷ (0xFE80 * 2 ^ 112, 0xFEC0 * 2 ^ 112 - 1)
    ∷ (0xFF00 * 2 ^ 112, 2 ^ 128 - 1)
    ∷ []

-- An address that is public: outside the reserved ranges, also the one that an IPv6 address maps.
abbrev pub IsPublic : Ip → Type 0
IsPublic (v4 n) = All (Outside n) reserved
IsPublic (v6 n) =
    ((m : ℕ) → to4 (v6 n) ≡ some m → All (Outside m) reserved)
    × (to4 (v6 n) ≡ none → All (Outside n) reserved_v6)

-- the addresses with a prefix
prefix-Outside :
    (n width q : ℕ)
    → 0 < width
    → eqb (n / width) q ≡ false
    → Outside n (q * width, q * width + width - 1)
prefix-Outside n width q some_width other = elim (Bool-cases (ltb (n / width) q)) [
  | inl below ↦ inl ((div-lt_iff_lt-mul some_width).0 (ltb→lt (n / width) q below))
  | inr above ↦
      let more : suc q ≤ n / width = ground arith in
      let high : suc q * width ≤ n = (le-div_iff_mul-le some_width).0 more in
      inr (omega (arith, high, some_width))
]

positive_power : (k : ℕ) → 0 < 2 ^ k
positive_power k = pow-le-pow_right (omega arith) {i = 0} (omega arith)

-- the first and the last address of a block
abbrev range_of : Block → Range
range_of b =
    let width = 2 ^ (32 - b.prefix) in
    let first = b.base / width * width in (first, first + width - 1)

ranges_lem : map range_of blocked_v4_blocks ≡ reserved
unfolding blocked_v4_blocks reserved quad
ranges_lem = refl

blocks-Outside :
    (n : ℕ) (bs : List Block) → any (holds n) bs ≡ false → All (Outside n) (map range_of bs)
unfolding any holds
blocks-Outside n [] e = tt
blocks-Outside n (b ∷ bs) e =
    let width = 2 ^ (32 - b.prefix) in
    (
      prefix-Outside n width (b.base / width) (positive_power (32 - b.prefix)) (ground arith),
      blocks-Outside n bs (ground arith),
    )

ipv4_blocked-Outside : (n : ℕ) → ipv4_blocked n ≡ false → All (Outside n) reserved
unfolding ipv4_blocked
ipv4_blocked-Outside n e = subst (All (Outside n)) ranges_lem (blocks-Outside n blocked_v4_blocks e)

-- what is left when one of two tests is met
or_false : (a b : Bool) → (a || b) ≡ false → (a ≡ false) × (b ≡ false)
or_false false b e = (refl, e)
or_false true b e = absurd (cc)

is_special-Outside : (n : ℕ) → is_special n ≡ false → All (Outside n) reserved_v6
unfolding is_special reserved_v6
is_special-Outside n e =
    let (not_one, e1) = or_false (eqb n 1) _ e in
    let (not_zero, e2) = or_false (eqb n 0) _ e1 in
    let (not_local, e3) = or_false (eqb (n / 2 ^ 118) 0x3FA) _ e2 in
    let (_, e4) = or_false (eqb (n / 2 ^ 120) 0xFF && eqb (n / 2 ^ 112 % 16) 2) _ e3 in
    let (not_private, not_multicast) = or_false (eqb (n / 2 ^ 121) 0x7E) _ e4 in
    let private_range = prefix-Outside n (2 ^ 121) 0x7E (positive_power 121) not_private in
    let local_range = prefix-Outside n (2 ^ 118) 0x3FA (positive_power 118) not_local in
    let multicast_range = prefix-Outside n (2 ^ 120) 0xFF (positive_power 120) not_multicast in
    (inr (ground arith), (private_range, (local_range, (multicast_range, tt))))

ipv6_blocked-Outside : (n : ℕ) → ipv6_blocked n ≡ false → All (Outside n) reserved_v6
unfolding ipv6_blocked
ipv6_blocked-Outside n e = elim (Bool-cases (is_special n)) [
  | inl special ↦ let wrong : true ≡ false = (rw (special, ipv6_blocked) at e) in absurd (cc)
  | inr other ↦ is_special-Outside n other
]

blocked_as-Outside :
    (n : ℕ) (o : Option ℕ)
    → blocked_as n o ≡ false
    → ((m : ℕ) → o ≡ some m → All (Outside m) reserved) × (o ≡ none → All (Outside n) reserved_v6)
unfolding blocked_as
blocked_as-Outside n none e = (λ m wrong. absurd (cc), λ _. ipv6_blocked-Outside n e)
blocked_as-Outside n (some m) e = (
  λ k same. subst (λ x. All (Outside x) reserved) (some_inj same) (ipv4_blocked-Outside m e),
  λ wrong. absurd (cc),
)

ip_blocked-IsPublic : (ip : Ip) → ip_blocked ip ≡ false → IsPublic ip
unfolding ip_blocked
ip_blocked-IsPublic (v4 n) e = ipv4_blocked-Outside n e
ip_blocked-IsPublic (v6 n) e = blocked_as-Outside n (to4 (v6 n)) e

any-IsPublic : (ips : List Ip) → any ip_blocked ips ≡ false → All IsPublic ips
unfolding any
any-IsPublic [] e = tt
any-IsPublic (ip ∷ ips) e =
    let (passes, rest) = or_false (ip_blocked ip) (any ip_blocked ips) e in
    (ip_blocked-IsPublic ip passes, any-IsPublic ips rest)

check_ips-IsPublic :
    (found : Option (List Ip))
    → check_ips found ≡ none
    → (ips : List Ip) × (found ≡ some ips) × All IsPublic ips
unfolding check_ips
check_ips-IsPublic none e = absurd (cc)
check_ips-IsPublic (some ips) e = elim (Bool-cases (any ip_blocked ips)) [
  | inl blocked ↦
      let wrong : ◌≡◌ {A = Option ErrorCode} (some ssrf_blocked) none =
        (rw (blocked, check_ips) at e) in
      absurd (cc)
  | inr passes ↦ (ips, refl, any-IsPublic ips passes)
]

-- the two tests before that of the addresses
passes_tests :
    (http https allowed : Bool) (rest : Option ErrorCode)
    → (if not (http || https) then some ssrf_blocked else (if allowed then none else rest)) ≡ none
    → ((http ≡ true) ⊎ (https ≡ true)) × ((allowed ≡ true) ⊎ (rest ≡ none))
passes_tests true https true rest e = (inl refl, inl refl)
passes_tests true https false rest e = (inl refl, inr e)
passes_tests false true true rest e = (inr refl, inl refl)
passes_tests false true false rest e = (inr refl, inr e)
passes_tests false false allowed rest e = absurd (cc)

-- A URL that passes: it can be parsed and has the scheme http or https; and either its host is on the
-- allowlist, or its host has been resolved and every one of its addresses is public.
pub assert_public_url-IsPublic :
    (u : Option Url) (allowlist : List Text)
    → assert_public_url u allowlist ≡ none
    → (parsed : Url) × (u ≡ some parsed)
      × ((parsed.scheme ≡ bytes "http") ⊎ (parsed.scheme ≡ bytes "https"))
      × ((host_allowed parsed.host allowlist ≡ true)
          ⊎ ((ips : List Ip) × (parsed.ips ≡ some ips) × All IsPublic ips))
unfolding assert_public_url
assert_public_url-IsPublic none allowlist e = absurd (cc)
assert_public_url-IsPublic (some u) allowlist e =
    let (scheme, host) =
      passes_tests (u.scheme == bytes "http") (u.scheme == bytes "https")
        (host_allowed u.host allowlist) (check_ips u.ips) e in
    (
      u,
      refl,
      elim scheme [
        | inl http ↦ inl (eq_of_== u.scheme (bytes "http") http)
        | inr https ↦ inr (eq_of_== u.scheme (bytes "https") https)
      ],
      elim host [
        | inl allowed ↦ inl allowed
        | inr checked ↦ inr (check_ips-IsPublic u.ips checked)
      ],
    )
