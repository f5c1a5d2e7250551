-- ===== src/Xff/Sender.antt =====
-- What `Ctx.IP` answers behind the middleware of xff.go, on a context that knows nothing of the client.
use wx.Common.{
  ◌≡◌, ◌≢◌, ℤ, pos, not, true, Option, some, List, [], ◌∷◌, ◌++◌, Bytes, panic, done, index_range,
  ◌>>=◌, codes, All, Returns, length, ◌==◌, refl, ap, ◌∙◌,
}
use wx.Routing.Router.Register.{split_comma}
use wx.Routing.Request.{Trust, unknown, trusted, Ctx}
use wx.Routing.Request.Client
use wx.Routing.Request.Client.{peek}
use wx.Addresses.Ranges.{Net, in_ranges}
use wx.Xff
use wx.Xff.{
  Config, trusts, header_x_forwarded_for, peek_if, client_ips, filter_client_ips,
  is_from_trusted_proxy, xff_info_of,
}
use wx.Xff.Filter.{
  after_commas, NoComma, split_comma-append, split_comma_plain, Passed, IsClient,
  filter_client_ips_lem, filter-empty,
}

-- The context as the middleware leaves one on which no address, host, port or scheme is known.
abbrev pub unseen : {H V : Type 0} → Ctx H V → Ctx H V
unseen c = record c { xff_info = some unknown; rip = []; rhost = []; rport = pos 0; rsecure = 0 }

-- The same, when the sender has been looked at.
abbrev pub judged : {H V : Type 0} → Trust → Ctx H V → Ctx H V
judged t c = record (unseen c) { xff_info = some t }

module _ {H V : Type 0} (net : Net) (atoi : Bytes → Option ℤ) (cfg : Config) (c : Ctx H V) where
  trusted_sender :
      not (length cfg.trust_proxies == 0) ≡ true
      → in_ranges net cfg.ip_ranges c.request.remote ≡ true
      → is_from_trusted_proxy net cfg (unseen c) ≡ (judged trusted c, true)
  unfolding is_from_trusted_proxy
  trusted_sender some_range h = rw (some_range, h) refl

  client_ips-header :
      (v : Bytes)
      → peek_if cfg header_x_forwarded_for (codes "X-Forwarded-For") c.request ≡ v
      → v ≢ []
      → client_ips cfg (judged trusted c) ≡ (judged trusted c, split_comma [] v)
  unfolding client_ips split_comma
  client_ips-header [] e n = elim (n refl) [ ]
  client_ips-header (x ∷ v) e n = rw (client_ips, e) refl

  list_behind : (s x : Bytes) (qs : List Bytes) → (s ++ b',' ∷ (x ++ after_commas qs)) ≢ []
  list_behind [] x qs e = cc
  list_behind (a ∷ s) x qs e = cc

  -- `xffInfo.IP` looks at the list of X-Forwarded-For.
  ip-header :
      (v : Bytes)
      → not (length cfg.trust_proxies == 0) ≡ true
      → in_ranges net cfg.ip_ranges c.request.remote ≡ true
      → trusts cfg header_x_forwarded_for ≡ true
      → peek (codes "X-Forwarded-For") c.request ≡ v
      → v ≢ []
      → Xff.ip net cfg (unseen c) ≡ (
          filter_client_ips net cfg.ip_ranges (split_comma [] v) (length (split_comma [] v))
          >>= (λ a. done (record (judged trusted c) { rip = a })))
  unfolding Xff.ip peek_if
  ip-header v some_range h t e n = rw (some_range, h, client_ips-header v (rw t e) n) refl

  -- Behind a trusted proxy `Ctx.IP` answers with the last address of X-Forwarded-For that no trusted
  -- proxy has, whatever bytes stand in front of its comma: the elements behind it are those that the
  -- loop goes on from, neither they nor it hold a comma, and the text of the address is not empty.
  pub ip-unforged :
      (remote s x ip text : Bytes) (qs : List Bytes)
      → not (length cfg.trust_proxies == 0) ≡ true
      → in_ranges net cfg.ip_ranges c.request.remote ≡ true
      → trusts cfg header_x_forwarded_for ≡ true
      → peek (codes "X-Forwarded-For") c.request ≡ s ++ b',' ∷ (x ++ after_commas qs)
      → NoComma x
      → All NoComma qs
      → IsClient net cfg.ip_ranges x ip
      → All (Passed net cfg.ip_ranges) qs
      → net.text ip ≡ text
      → text ≢ []
      → Returns (λ r. r.1 ≡ text) (Client.ip (xff_info_of net atoi cfg) remote (unseen c))
  unfolding Client.ip
  ip-unforged remote s x ip text qs some_range h t e nx nqs client passed g n =
      let header = s ++ b',' ∷ (x ++ after_commas qs) in
      let elements : split_comma [] header ≡ split_comma [] s ++ x ∷ qs =
        split_comma-append [] s (x ++ after_commas qs)
        ∙ ap (λ l. split_comma [] s ++ l) (split_comma_plain [] x qs nx nqs) in
      let found : Xff.ip net cfg (unseen c) ≡ done (record (judged trusted c) { rip = text }) =
        rw
          (
            ip-header header some_range h t e (list_behind s x qs),
            elements,
            filter_client_ips_lem net cfg.ip_ranges (split_comma [] s) qs x ip client passed,
            g,
          )
          refl in
      rw found (answers (record (judged trusted c) { rip = text }) text n)
    where
      answers :
          (d : Ctx H V) (v : Bytes)
          → v ≢ []
          → Returns {A = Ctx H V × Bytes}
              (λ r. r.1 ≡ v)
              (elim v [ [] ↦ done (d, remote) | y ∷ a ↦ done (d, y ∷ a) ])
      answers d [] m = elim (m refl) [ ]
      answers d (y ∷ a) m = refl

  -- Behind a trusted proxy `Ctx.IP` panics when an element of X-Forwarded-For is empty, before which
  -- the loop finds no address.
  pub ip-empty :
      (remote s : Bytes) (qs : List Bytes)
      → not (length cfg.trust_proxies == 0) ≡ true
      → in_ranges net cfg.ip_ranges c.request.remote ≡ true
      → trusts cfg header_x_forwarded_for ≡ true
      → peek (codes "X-Forwarded-For") c.request ≡ s ++ b',' ∷ after_commas qs
      → All NoComma qs
      → All (Passed net cfg.ip_ranges) qs
      → Client.ip (xff_info_of net atoi cfg) remote (unseen c) ≡ panic index_range
  unfolding Client.ip
  ip-empty remote s qs some_range h t e nqs passed =
      let header = s ++ b',' ∷ after_commas qs in
      let elements : split_comma [] header ≡ split_comma [] s ++ [] ∷ qs =
        split_comma-append [] s (after_commas qs)
        ∙ ap (λ l. split_comma [] s ++ l) (split_comma_plain [] [] qs tt nqs) in
      let found : Xff.ip net cfg (unseen c) ≡ panic index_range =
        rw
          (
            ip-header header some_range h t e (list_behind s [] qs),
            elements,
            filter-empty net cfg.ip_ranges (split_comma [] s) qs passed,
          )
          refl in
      rw found refl
