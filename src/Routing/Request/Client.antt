-- ===== src/Routing/Request/Client.antt =====
-- What fasthttp-routing/context.go says of the client: `IP`, `Host`, `Port`, `Secure`, `Proto`. `XffInfo`
-- is the interface `XFFInfo`; the context is passed on, since its methods write to it.
use wx.Common.{
  ◌≡◌, ap, ℕ, ℤ, pos, Bool, ◌||◌, Option, none, some, [], ◌∷◌, Bytes, codes, Panics, done, ◌>>=◌,
  lookup, negate, is_negative, is_zero, ◌==◌, if◌then◌else◌,
}
use wx.Addresses.{Address, split_ip_and_port}
use wx.Routing.Request.{RequestCtx, Trust, Ctx}

module _ (H V : Type 0) where
  pub record XffInfo : Type 0 where
    pub host : Ctx H V → Panics (Ctx H V)
    pub port : Ctx H V → Panics (Ctx H V)
    pub ip : Ctx H V → Panics (Ctx H V)
    pub secure : Ctx H V → Panics (Ctx H V)

-- `Header.Peek`: a header that is missing is empty.
unfoldable pub peek : Bytes → RequestCtx → Bytes
unfolding lookup
peek name request = elim (lookup name request.headers) [ none ↦ [] | some v ↦ v ]

-- The address of a Host header, as a panic if that is empty.
unfoldable pub host_header : RequestCtx → Panics Address
unfolding peek split_ip_and_port
host_header request = split_ip_and_port (peek (codes "Host") request)

module _ {H V : Type 0} where
  -- The host of the Host header.
  unfoldable pub plain_host : Ctx H V → Panics (Ctx H V × Bytes)
  unfolding host_header
  plain_host c = host_header c.request >>= (λ a. done (c, a.ip))

  -- The number of the port there, if there is one.
  unfoldable pub plain_port : (Bytes → Option ℤ) → Ctx H V → Panics (Option ℤ)
  unfolding host_header
  plain_port atoi c =
      host_header c.request
      >>= (λ a. done (elim a.port [ [] ↦ none | x ∷ s ↦ if a.invalid then none else atoi (x ∷ s) ]))

module _ {H V : Type 0} (info : XffInfo H V) where
  -- `Ctx.IP`, given the text of the remote address.
  unfoldable pub ip : Bytes → Ctx H V → Panics (Ctx H V × Bytes)
  ip remote c = elim c.xff_info [
    | none ↦ done (c, remote)
    | some _ ↦ elim c.rip [
      | x ∷ a ↦ done (c, x ∷ a)
      | [] ↦ info.ip c >>= (λ d. elim d.rip [ [] ↦ done (d, remote) | x ∷ a ↦ done (d, x ∷ a) ])
    ]
  ]

  -- `Ctx.Host`
  unfoldable pub host : Ctx H V → Panics (Ctx H V × Bytes)
  unfolding plain_host
  host c = elim c.xff_info [
    | none ↦ plain_host c
    | some _ ↦ elim c.rhost [
      | x ∷ a ↦ done (c, x ∷ a)
      | [] ↦ info.host c >>= (λ d. elim d.rhost [ [] ↦ plain_host d | x ∷ a ↦ done (d, x ∷ a) ])
    ]
  ]

  -- `Ctx.Secure`
  unfoldable pub secure : Ctx H V → Panics (Ctx H V × Bool)
  secure c = elim c.xff_info [
    | none ↦ done (c, c.request.is_tls)
    | some _ ↦
        if c.rsecure == 0
        then info.secure c
          >>= (λ d. done (d, if d.rsecure == 0 then d.request.is_tls else d.rsecure == 2))
        else done (c, c.rsecure == 2)
  ]

  -- `Ctx.Proto`
  unfoldable pub proto : Ctx H V → Panics (Ctx H V × Bytes)
  unfolding secure
  proto c = secure c >>= (λ r. done (r.0, if r.1 then codes "https" else codes "http"))

  -- The end of `Ctx.Port`, given `strconv.Atoi`.
  unfoldable pub default_port : (Bytes → Option ℤ) → Ctx H V → Panics (Ctx H V × ℤ)
  unfolding plain_port secure
  default_port atoi c = plain_port atoi c >>= (λ p. elim p [
    | some n ↦ done (c, n)
    | none ↦ secure c >>= (λ r. done (r.0, if r.1 then pos 443 else pos 80))
  ])

  -- `Ctx.Port`
  unfoldable pub port : (Bytes → Option ℤ) → Ctx H V → Panics (Ctx H V × ℤ)
  unfolding default_port
  port atoi c = elim c.xff_info [
    | none ↦ default_port atoi c
    | some _ ↦
        if is_negative c.rport || is_zero c.rport
        then info.port c >>= (λ d.
          let e = record d { rport = if is_negative d.rport then negate d.rport else d.rport } in
          if is_zero e.rport then default_port atoi e else done (e, e.rport))
        else done (c, c.rport)
  ]

  ip_known :
      (c : Ctx H V) (rest : Panics (Ctx H V × Bytes)) (r : Bytes) (x : ℕ) (a : Bytes)
      → r ≡ x ∷ a
      → elim r [ y ∷ b ↦ done (c, y ∷ b) | [] ↦ rest ] ≡ done (c, x ∷ a)
  ip_known c rest [] x a e = cc
  ip_known c rest (y ∷ b) x a e = ap (λ z. done (c, z)) e

  -- An address that is already known is the answer.
  pub ip-known :
      (remote : Bytes) (t : Trust) (c : Ctx H V) (x : ℕ) (a : Bytes)
      → c.xff_info ≡ some t
      → c.rip ≡ x ∷ a
      → ip remote c ≡ done (c, x ∷ a)
  unfolding ip
  ip-known remote t c x a e f = informed c.xff_info e
    where
      informed :
          (i : Option Trust)
          → i ≡ some t
          → ◌≡◌ {A = Panics (Ctx H V × Bytes)}
              (elim i [
                | none ↦ done (c, remote)
                | some _ ↦ elim c.rip [
                  | y ∷ b ↦ done (c, y ∷ b)
                  | [] ↦
                      info.ip c
                      >>= (λ d. elim d.rip [ [] ↦ done (d, remote) | y ∷ b ↦ done (d, y ∷ b) ])
                ]
              ])
              (done (c, x ∷ a))
      informed none g = cc
      informed (some u) g = ip_known c _ c.rip x a f
