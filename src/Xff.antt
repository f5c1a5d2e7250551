-- ===== src/Xff.antt =====
-- fasthttp-routing/middleware/xff/xff.go: what the headers of trusted proxies say of the client. An
-- `xffInfo` is known to its context alone, and its trust stands there. `net` is Go's package net, and
-- `atoi` is strconv.Atoi.
pub mod Forwarded
pub mod Filter
pub mod Sender
pub mod Asked
pub mod Untrusted
pub mod Chained
mod Tests
use Prim.Native.Nat.{bit_and}
use wx.Common.{
  ◌+◌, ℕ, suc, ℤ, negate, Bool, true, false, not, ◌&&◌, Option, none, some, ◌⊎◌, inl, inr, List, [],
  ◌∷◌, ◌++◌, map, Bytes, codes, Panics, done, ◌>>=◌, checked, get_elem?, length, take, drop, zero,
  assign, same, ◌||◌, ◌==◌, if◌then◌else◌,
}
use wx.Addresses.{Address, split_ip_and_port}
use wx.Addresses.Ranges.{Net, IpNet, RangeError, addresses_to_nets, in_ranges}
use wx.Negotiation.Offer.{or_else}
use wx.Routing.Router.Register.{split_comma}
use wx.Routing.Chain.{Handler, return, look, update, next}
use wx.Routing.Request.{RequestCtx, HandlerError, Trust, unknown, untrusted, trusted, Ctx}
use wx.Routing.Request.Client.{XffInfo, peek}
use wx.Xff.Forwarded.{scan_first, scan_all}

pub record Config : Type 0 where
  pub trust_proxies : List Bytes
  pub ip_ranges : List IpNet
  pub trusted_header_set : ℕ

-- The flags of helpers.go.
abbrev pub header_forwarded : ℕ
header_forwarded = 1

abbrev pub header_x_forwarded_for : ℕ
header_x_forwarded_for = 2

abbrev pub header_x_forwarded_host : ℕ
header_x_forwarded_host = 4

abbrev pub header_x_forwarded_proto : ℕ
header_x_forwarded_proto = 8

abbrev pub header_x_forwarded_port : ℕ
header_x_forwarded_port = 16

-- `DefCfg`
abbrev pub def_cfg : Config
def_cfg = record { trust_proxies = []; ip_ranges = []; trusted_header_set = 2 + 4 + 16 + 8 }

-- `flag & x.cfg.TrustedHeaderSet != 0`
abbrev pub trusts : Config → ℕ → Bool
trusts cfg flag = not (bit_and flag cfg.trusted_header_set == 0)

-- A header, if it is a trusted one.
unfoldable pub peek_if : Config → ℕ → Bytes → RequestCtx → Bytes
unfolding peek
peek_if cfg flag name request = if trusts cfg flag then peek name request else []

-- The slice of the `Forwarded` header is written to.
abbrev pub rewritten : Bytes → RequestCtx → RequestCtx
rewritten [] request = request
rewritten (x ∷ ff) request = record request {
  headers = assign (codes "Forwarded") (x ∷ ff) request.headers;
}

-- `normalizeAndFilterClientIps`, with the number of elements that are left.
unfoldable pub filter_client_ips : Net → List IpNet → List Bytes → ℕ → Panics Bytes
unfolding split_ip_and_port in_ranges
filter_client_ips net ranges ips zero = done []
filter_client_ips net ranges ips (suc i) =
    let rest = filter_client_ips net ranges ips i in
    checked (get_elem? ips i) >>= (λ x. split_ip_and_port x >>= (λ a.
      if a.invalid then rest else elim (net.parse_ip a.ip) [
        | none ↦ rest
        | some ip ↦ if in_ranges net ranges ip then rest else done (net.text ip)
      ]))

module _ {H V : Type 0} (cfg : Config) where
  -- The value of a parameter of `Forwarded`, if that header is trusted.
  unfoldable pub forwarded_value : ℕ → Bytes → Ctx H V → Ctx H V × Bytes
  unfolding scan_first peek
  forwarded_value l ks c =
      let ff = peek (codes "Forwarded") c.request in
      let r = scan_first (length ff) l ks ff in
      if trusts cfg header_forwarded
      then (record c { request = rewritten r.0 c.request }, or_else r.1 [])
      else (c, [])

  -- A header, or a parameter of `Forwarded`.
  unfoldable pub header_or_forwarded : ℕ → Bytes → ℕ → Bytes → Ctx H V → Ctx H V × Bytes
  unfolding peek_if forwarded_value
  header_or_forwarded flag name l ks c = elim (peek_if cfg flag name c.request) [
    | x ∷ v ↦ (c, x ∷ v)
    | [] ↦ forwarded_value l ks c
  ]

  -- The addresses that `xffInfo.IP` looks at.
  unfoldable pub client_ips : Ctx H V → Ctx H V × List Bytes
  unfolding peek_if scan_all split_comma
  client_ips c =
      let ff = peek (codes "Forwarded") c.request in
      let r = scan_all (length ff) 0 b'f' (codes "or=") ff in
      elim (peek_if cfg header_x_forwarded_for (codes "X-Forwarded-For") c.request) [
        | x ∷ v ↦ (c, split_comma [] (x ∷ v))
        | [] ↦
            if trusts cfg header_forwarded
            then (
              record c { request = rewritten r.0 c.request },
              map (λ p. take p.1 (drop p.0 r.0)) r.1,
            )
            else (c, [])
      ]

module _ {H V : Type 0} (net : Net) (cfg : Config) where
  -- `isFromTrustedProxy`
  unfoldable pub is_from_trusted_proxy : Ctx H V → Ctx H V × Bool
  unfolding in_ranges
  is_from_trusted_proxy c =
      let trusting =
        not (length cfg.trust_proxies == 0) && in_ranges net cfg.ip_ranges c.request.remote in
      elim (or_else c.xff_info unknown) [
        | trusted ↦ (c, true)
        | untrusted ↦ (c, false)
        | unknown ↦
            (record c { xff_info = some (if trusting then trusted else untrusted) }, trusting)
      ]

  -- `xffInfo.Secure`
  unfoldable pub secure : Ctx H V → Panics (Ctx H V)
  unfolding is_from_trusted_proxy header_or_forwarded same
  secure c =
      let t = is_from_trusted_proxy c in
      let r =
        header_or_forwarded cfg header_x_forwarded_proto (codes "X-Forwarded-Proto") b'p'
          (codes "roto=") t.0 in
      let https =
        same r.1 (codes "https")
        || same r.1 (codes "on")
        || same r.1 (codes "ssl")
        || same r.1 (codes "1") in
      if t.1
      then elim r.1 [
        | [] ↦ done r.0
        | x ∷ v ↦ done (record r.0 { rsecure = if https then 2 else 1 })
      ]
      else done t.0

  -- `xffInfo.IP`
  unfoldable pub ip : Ctx H V → Panics (Ctx H V)
  unfolding is_from_trusted_proxy client_ips filter_client_ips
  ip c =
      let t = is_from_trusted_proxy c in
      let r = client_ips cfg t.0 in
      if t.1
      then filter_client_ips net cfg.ip_ranges r.1 (length r.1)
        >>= (λ a. done (record r.0 { rip = r.0.rip ++ a }))
      else done t.0

module _ {H V : Type 0} (net : Net) (atoi : Bytes → Option ℤ) (cfg : Config) where
  -- The host of a forwarded value, and its port, negated.
  unfoldable pub take_host : Bytes → Ctx H V → Panics (Ctx H V)
  unfolding split_ip_and_port
  take_host [] c = done c
  take_host (x ∷ v) c = split_ip_and_port (x ∷ v) >>= (λ a.
      let known = record c { rhost = c.rhost ++ a.ip } in
      if a.invalid then done c else elim a.port [
        | [] ↦ done known
        | y ∷ p ↦ elim (atoi (y ∷ p)) [
          | none ↦ done known
          | some i ↦ done (record known { rport = negate i })
        ]
      ])

  -- `xffInfo.Host`
  unfoldable pub host : Ctx H V → Panics (Ctx H V)
  unfolding is_from_trusted_proxy header_or_forwarded take_host
  host c =
      let t = is_from_trusted_proxy net cfg c in
      let r =
        header_or_forwarded cfg header_x_forwarded_host (codes "X-Forwarded-Host") b'h'
          (codes "ost=") t.0 in
      if t.1 then take_host r.1 r.0 else done t.0

  -- `xffInfo.Port`
  unfoldable pub port : Ctx H V → Panics (Ctx H V)
  unfolding host peek_if
  port c =
      let t = is_from_trusted_proxy net cfg c in
      if t.1
      then host t.0 >>= (λ d.
        elim (peek_if cfg header_x_forwarded_port (codes "X-Forwarded-Port") d.request) [
          | [] ↦ done d
          | x ∷ v ↦ elim (atoi (x ∷ v)) [ none ↦ done d | some i ↦ done (record d { rport = i }) ]
        ])
      else done t.0

  -- The `xffInfo` as an `XFFInfo`.
  abbrev pub xff_info_of : XffInfo H V
  xff_info_of = record { host = host; port = port; ip = ip net cfg; secure = secure net cfg }

-- The configuration of `New`; the program ends at an error.
unfoldable pub configured : Net → Config → RangeError ⊎ Config
unfolding addresses_to_nets
configured net cfg =
    let set : RangeError ⊎ Config = elim (addresses_to_nets net cfg.trust_proxies) [
      | inl e ↦ inl e
      | inr ranges ↦ inr (record cfg { ip_ranges = ranges })
    ] in
    elim cfg.trust_proxies [ [] ↦ inr cfg | r ∷ rs ↦ set ]

-- The handler that `New` returns; a nil `Skip` skips nothing.
unfoldable pub xff : {H V : Type 0} → (Ctx H V → Bool) → Handler (Ctx H V) HandlerError
xff skip = look (λ c.
    if skip c
    then next (λ e. return e)
    else update (λ d. record d { xff_info = some unknown }) (next (λ e. return e)))
