-- ===== src/Xff/Untrusted.antt =====
-- What the context says of a client that no trusted proxy speaks for: `IP`, `Host`, `Port`, `Secure` and
-- `Proto` of fasthttp-routing/context.go behind the middleware of xff.go, in any order and number.
use wx.Common.{
  Bool, true, false, Option, none, some, ℤ, pos, List, [], ◌∷◌, Bytes, codes, lookup, Panics, panic,
  done, ◌>>=◌, All, inl, inr, not, ◌&&◌, length, ◌==◌, ◌≡◌, ◌∙◌, refl, ap, sym, if◌then◌else◌,
}
use wx.Routing.Request.{Trust, unknown, untrusted, Ctx}
use wx.Routing.Request.Client
use wx.Routing.Request.Client.{XffInfo, peek}
use wx.Addresses.{Address, split_ip_and_port}
use wx.Addresses.Ranges.{Net, IpNet, in_ranges}
use wx.Negotiation.Offer.{or_else}
use wx.Xff
use wx.Xff.{Config, is_from_trusted_proxy, xff_info_of}
use wx.Xff.Asked.{
  Query, ip, host, port, secure, proto, text, number, ask, asks, port_of, plain_answer,
  plain_answers, IsUntrusted,
}
use wx.Xff.Sender.{unseen, judged}

bind_assoc :
    {A B C : Type 0} (m : Panics A) (f : A → Panics B) (g : B → Panics C)
    → ((m >>= f) >>= g) ≡ (m >>= (λ a. f a >>= g))
bind_assoc (panic e) f g = refl
bind_assoc (done a) f g = refl

bind_congruence :
    {A B : Type 0} (m : Panics A) (f g : A → Panics B)
    → ((a : A) → f a ≡ g a)
    → (m >>= f) ≡ (m >>= g)
bind_congruence (panic e) f g h = refl
bind_congruence (done a) f g h = h a

and_false : (b : Bool) → (b && false) ≡ false
and_false true = refl
and_false false = refl

not_in_ranges :
    (net : Net) (ranges : List IpNet) (sender : Bytes)
    → All (λ r. net.contains r sender ≡ false) ranges
    → in_ranges net ranges sender ≡ false
unfolding in_ranges
not_in_ranges net [] sender h = refl
not_in_ranges net (r ∷ rs) sender (e, h) = rw e (not_in_ranges net rs sender h)

distrusted :
    (net : Net) (cfg : Config) (sender : Bytes)
    → IsUntrusted net cfg sender
    → (not (length cfg.trust_proxies == 0) && in_ranges net cfg.ip_ranges sender) ≡ false
distrusted net cfg sender (inl e) = rw e refl
distrusted net cfg sender (inr h) =
    rw (not_in_ranges net cfg.ip_ranges sender h, and_false (not (length cfg.trust_proxies == 0)))
      refl

peek-or_else : (o : Option Bytes) → elim o [ none ↦ [] | some v ↦ v ] ≡ or_else o []
peek-or_else none = refl
peek-or_else (some v) = refl

module _ {H V : Type 0} (net : Net) (atoi : Bytes → Option ℤ) (cfg : Config) (remote : Bytes)
    (c : Ctx H V) where
  abbrev informer : XffInfo H V
  informer = xff_info_of net atoi cfg

  abbrev host_field : Bytes
  host_field = or_else (lookup (codes "Host") c.request.headers) []

  -- A context on which the sender has not been looked at, or is known to be none of the proxies.
  abbrev Distrusts : Trust → Type 0
  Distrusts t = is_from_trusted_proxy net cfg (judged t c) ≡ (judged untrusted c, false)

  peek_host : peek (codes "Host") c.request ≡ host_field
  unfolding peek
  peek_host = peek-or_else (lookup (codes "Host") c.request.headers)

  bind_host :
      {A : Type 0} (k : Address → Panics A)
      → (split_ip_and_port (peek (codes "Host") c.request) >>= k)
        ≡ (split_ip_and_port host_field >>= k)
  bind_host k = ap (λ h. split_ip_and_port h >>= k) peek_host

  unknown-Distrusts : IsUntrusted net cfg c.request.remote → Distrusts unknown
  unfolding is_from_trusted_proxy
  unknown-Distrusts h = rw (distrusted net cfg c.request.remote h) refl

  secure_plain :
      (t : Trust)
      → Distrusts t
      → Client.secure informer (judged t c) ≡ done (judged untrusted c, c.request.is_tls)
  unfolding Client.secure Xff.secure
  secure_plain t e = rw e refl

  host_plain :
      (t : Trust)
      → Distrusts t
      → Client.host informer (judged t c)
        ≡ (split_ip_and_port host_field >>= (λ a. done (judged untrusted c, a.ip)))
  unfolding Client.host Xff.host Client.plain_host Client.host_header
  host_plain t e =
      rw e (ap (λ h. split_ip_and_port h >>= (λ a. done (judged untrusted c, a.ip))) peek_host)

  untrusted-Distrusts : Distrusts untrusted
  unfolding is_from_trusted_proxy
  untrusted-Distrusts = refl

  port_or :
      (scheme_port : ℤ) (o : Option ℤ)
      → ◌≡◌ {A = Panics (Ctx H V × ℤ)}
          (elim o [
            | some n ↦ done (judged untrusted c, n)
            | none ↦ done (judged untrusted c, scheme_port)
          ])
          (done (judged untrusted c, or_else o scheme_port))
  port_or scheme_port none = refl
  port_or scheme_port (some n) = refl

  given_port :
      (scheme_port : ℤ) (p : Bytes) (b : Bool)
      → ◌≡◌ {A = Panics (Ctx H V × ℤ)}
          (elim (elim p as (λ _. Option ℤ) [
            | [] ↦ none
            | x ∷ s ↦ if b then none else atoi (x ∷ s)
          ]) [
            | some n ↦ done (judged untrusted c, n)
            | none ↦ done (judged untrusted c, scheme_port)
          ])
          (done (
            judged untrusted c,
            elim p [
              | [] ↦ scheme_port
              | x ∷ s ↦ if b then scheme_port else or_else (atoi (x ∷ s)) scheme_port
            ],
          ))
  given_port scheme_port [] b = refl
  given_port scheme_port (x ∷ s) true = refl
  given_port scheme_port (x ∷ s) false = port_or scheme_port (atoi (x ∷ s))

  default_plain : Client.default_port informer atoi (judged untrusted c) ≡ (
      split_ip_and_port host_field
      >>= (λ a. done (judged untrusted c, port_of atoi c.request.is_tls a)))
  unfolding Client.default_port Client.plain_port Client.host_header Client.secure Xff.secure
      is_from_trusted_proxy
  default_plain =
      bind_assoc (split_ip_and_port (peek (codes "Host") c.request)) _ _
      ∙ bind_host _
      ∙ bind_congruence (split_ip_and_port host_field) _ _
          (λ a. given_port (if c.request.is_tls then pos 443 else pos 80) a.port a.invalid)

  port_plain :
      (t : Trust)
      → Distrusts t
      → Client.port informer atoi (judged t c) ≡ (
          split_ip_and_port host_field
          >>= (λ a. done (judged untrusted c, port_of atoi c.request.is_tls a)))
  unfolding Client.port Xff.port
  port_plain t e = rw e default_plain

  ask_plain :
      (t : Trust) (q : Query)
      → Distrusts t
      → ask informer atoi remote q (judged t c) ≡ (
          plain_answer atoi remote host_field c.request.is_tls q
          >>= (λ a. done (judged untrusted c, a)))
  unfolding Client.ip Xff.ip Client.proto
  ask_plain t ip e = rw e refl
  ask_plain t host e =
      ap (λ m. m >>= (λ r. done (r.0, text r.1))) (host_plain t e)
      ∙ bind_assoc (split_ip_and_port host_field) _ _
      ∙ sym (bind_assoc (split_ip_and_port host_field) _ _)
  ask_plain t port e =
      ap (λ m. m >>= (λ r. done (r.0, number r.1))) (port_plain t e)
      ∙ bind_assoc (split_ip_and_port host_field) _ _
      ∙ sym (bind_assoc (split_ip_and_port host_field) _ _)
  ask_plain t secure e = rw (secure_plain t e) refl
  ask_plain t proto e = rw (secure_plain t e) refl

  asks_plain :
      (t : Trust) (qs : List Query)
      → Distrusts t
      → asks informer atoi remote qs (judged t c)
        ≡ plain_answers atoi remote host_field c.request.is_tls qs
  asks_plain t [] e = refl
  asks_plain t (q ∷ qs) e =
      ap (λ m. m >>= (λ r. asks informer atoi remote qs r.0 >>= (λ answers. done (r.1 ∷ answers))))
        (ask_plain t q e)
      ∙ bind_assoc (plain_answer atoi remote host_field c.request.is_tls q) _ _
      ∙ bind_congruence (plain_answer atoi remote host_field c.request.is_tls q) _ _ (λ a.
        ap (λ m. m >>= (λ answers. done (a ∷ answers)))
          (asks_plain untrusted qs untrusted-Distrusts))

  -- There are no trusted proxies, or none of their ranges holds the address of the sender, and nothing
  -- is known of the client yet: whichever of `IP`, `Host`, `Port`, `Secure` and `Proto` are called, in
  -- any order and number, they answer with the remote address, the host and the port of the Host header
  -- (as SplitIpAndPort reads it), and what the connection says. No other header makes a difference.
  pub untrusted-asks :
      (qs : List Query)
      → IsUntrusted net cfg c.request.remote
      → asks informer atoi remote qs (unseen c)
        ≡ plain_answers atoi remote host_field c.request.is_tls qs
  untrusted-asks qs h = asks_plain unknown qs (unknown-Distrusts h)
