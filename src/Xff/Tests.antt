-- ===== src/Xff/Tests.antt =====
-- A request through two proxies.
use wx.Common.{
  ℕ, ℤ, true, false, Option, none, some, [], ◌∷◌, Bytes, List, codes, lookup, panic, index_range,
  inr, refl, Returns, ◌≡◌, ◌≢◌, ◌==◌,
}
use wx.Routing.Router.{new_router}
use wx.Routing.Request.{RequestCtx, Ctx, new_ctx}
use wx.Routing.Request.Client
use wx.Routing.Request.Client.{peek}
use wx.Addresses.Ranges.{Net, in_ranges}
use wx.Addresses.{split_ip_and_port}
use wx.Xff.{Config, def_cfg, xff_info_of}
use wx.Xff.Filter.{Passed, IsClient}
use wx.Xff.Asked.{Query, ip, host, port, proto, asks, plain_answers}
use wx.Xff.Untrusted.{untrusted-asks}
use wx.Xff.Sender.{unseen, ip-unforged, ip-empty}

-- Addresses are their texts, and a range holds what begins as it does.
abbrev plain_net : Net
plain_net = record {
  parse_ip = λ s. elim s [ [] ↦ none | c ∷ t ↦ some (c ∷ t) ];
  to4 = λ s. none;
  text = λ s. s;
  parse_cidr = λ s. none;
  cidr_mask = λ m n. [];
  contains = λ r s. elim r.ip [ [] ↦ false | c ∷ t ↦ elim s [ [] ↦ false | d ∷ u ↦ c == d ] ];
}

abbrev no_number : Bytes → Option ℤ
no_number s = none

abbrev config : Config
config = record def_cfg {
  trust_proxies = codes "a" ∷ codes "b" ∷ [];
  ip_ranges = record { ip = codes "a"; mask = [] } ∷ record { ip = codes "b"; mask = [] } ∷ [];
}

abbrev incoming : Bytes → Bytes → RequestCtx
incoming remote list = record {
  method = codes "GET";
  path = codes "/";
  headers = (codes "X-Forwarded-For", list) ∷ (codes "Host", codes "h") ∷ [];
  remote = remote;
  is_tls = true;
  status = 200;
  content_type = [];
  allow = none;
  body = [];
}

abbrev context : Bytes → Bytes → Ctx ℕ ℕ
context remote list = new_ctx (new_router []) (incoming remote list)

from_a : in_ranges plain_net config.ip_ranges (codes "a") ≡ true
unfolding in_ranges
from_a = refl

passed : Passed plain_net config.ip_ranges (codes "b")
unfolding in_ranges split_ip_and_port
passed = (_, refl, inr (inr (codes "b", refl, refl)))

client : IsClient plain_net config.ip_ranges (codes "c:1") (codes "c")
unfolding in_ranges split_ip_and_port
client = (_, refl, refl, refl, refl)

forged_header :
    peek (codes "X-Forwarded-For") (incoming (codes "a") (codes "x,c:1,b")) ≡ codes "x,c:1,b"
unfolding peek
forged_header = refl

c_given : codes "c" ≢ []
c_given e = cc

empty_header : peek (codes "X-Forwarded-For") (incoming (codes "a") (codes "x,,b")) ≡ codes "x,,b"
unfolding peek
empty_header = refl

ip-unforged_example :
    Returns {A = Ctx ℕ ℕ × Bytes}
      (λ r. r.1 ≡ codes "c")
      (Client.ip
        (xff_info_of plain_net no_number config)
        (codes "a")
        (unseen (context (codes "a") (codes "x,c:1,b"))))
ip-unforged_example =
    ip-unforged plain_net no_number config (context (codes "a") (codes "x,c:1,b")) (codes "a")
      (codes "x") (codes "c:1") (codes "c") (codes "c") (codes "b" ∷ []) refl from_a refl
      forged_header (refl, (refl, (refl, tt))) ((refl, tt), tt) client (passed, tt) refl c_given

ip-empty_example :
    Client.ip
      (xff_info_of plain_net no_number config)
      (codes "a")
      (unseen (context (codes "a") (codes "x,,b")))
    ≡ panic index_range
ip-empty_example =
    ip-empty plain_net no_number config (context (codes "a") (codes "x,,b")) (codes "a") (codes "x")
      (codes "b" ∷ []) refl from_a refl empty_header ((refl, tt), tt) (passed, tt)

-- The address, the port and the host again, after the scheme.
abbrev questions : List Query
questions = proto ∷ ip ∷ port ∷ host ∷ []

untrusted-asks_example :
    asks
      (xff_info_of plain_net no_number config)
      no_number
      (codes "c")
      questions
      (unseen (context (codes "c") (codes "x")))
    ≡ plain_answers no_number (codes "c") (codes "h") true questions
unfolding lookup
untrusted-asks_example =
    untrusted-asks plain_net no_number config (codes "c") (context (codes "c") (codes "x"))
      questions (inr (refl, (refl, tt)))
