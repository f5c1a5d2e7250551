-- ===== src/Xff/Asked.antt =====
-- Calls of `IP`, `Host`, `Port`, `Secure` and `Proto` of fasthttp-routing/context.go on one context, and
-- what the connection and the Host header say by themselves.
use wx.Common.{
  Bool, false, Option, ℤ, pos, List, [], ◌∷◌, Bytes, codes, Panics, done, ◌>>=◌, All, ◌⊎◌, ◌≡◌,
  if◌then◌else◌,
}
use wx.Routing.Request.{Ctx}
use wx.Routing.Request.Client
use wx.Routing.Request.Client.{XffInfo}
use wx.Addresses.{Address, split_ip_and_port}
use wx.Addresses.Ranges.{Net}
use wx.Negotiation.Offer.{or_else}
use wx.Xff.{Config}

-- A call of one of the methods, and its result.
pub data Query : Type 0 where
  ip host port secure proto : Query

pub data Answer : Type 0 where
  text : Bytes → Answer
  number : ℤ → Answer
  flag : Bool → Answer

module _ {H V : Type 0} (informer : XffInfo H V) (atoi : Bytes → Option ℤ) (remote : Bytes) where
  abbrev pub ask : Query → Ctx H V → Panics (Ctx H V × Answer)
  ask ip c = Client.ip informer remote c >>= (λ r. done (r.0, text r.1))
  ask host c = Client.host informer c >>= (λ r. done (r.0, text r.1))
  ask port c = Client.port informer atoi c >>= (λ r. done (r.0, number r.1))
  ask secure c = Client.secure informer c >>= (λ r. done (r.0, flag r.1))
  ask proto c = Client.proto informer c >>= (λ r. done (r.0, text r.1))

  -- One call after the other on the same context.
  abbrev pub asks : List Query → Ctx H V → Panics (List Answer)
  asks [] c = done []
  asks (q ∷ qs) c = ask q c >>= (λ r. asks qs r.0 >>= (λ answers. done (r.1 ∷ answers)))

-- What the connection and the Host header say: the port is that of the header if it is a number, and
-- else that of the scheme.
abbrev pub port_of : (Bytes → Option ℤ) → Bool → Address → ℤ
port_of atoi tls a =
    let scheme_port = if tls then pos 443 else pos 80 in
    elim a.port [
      | [] ↦ scheme_port
      | x ∷ s ↦ if a.invalid then scheme_port else or_else (atoi (x ∷ s)) scheme_port
    ]

module _ (atoi : Bytes → Option ℤ) (remote host_field : Bytes) (tls : Bool) where
  abbrev pub plain_answer : Query → Panics Answer
  plain_answer ip = done (text remote)
  plain_answer host = split_ip_and_port host_field >>= (λ a. done (text a.ip))
  plain_answer port = split_ip_and_port host_field >>= (λ a. done (number (port_of atoi tls a)))
  plain_answer secure = done (flag tls)
  plain_answer proto = done (text (if tls then codes "https" else codes "http"))

  abbrev pub plain_answers : List Query → Panics (List Answer)
  plain_answers [] = done []
  plain_answers (q ∷ qs) =
      plain_answer q >>= (λ a. plain_answers qs >>= (λ answers. done (a ∷ answers)))

-- There are no trusted proxies, or none of their ranges holds the address.
abbrev pub IsUntrusted : Net → Config → Bytes → Type 0
IsUntrusted net cfg sender =
    (cfg.trust_proxies ≡ []) ⊎ All (λ r. net.contains r sender ≡ false) cfg.ip_ranges
