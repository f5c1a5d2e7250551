-- ===== src/Csrf/Tests.antt =====
-- A form without and with a token, and the theorems on it.
use wx.Common.{◌+◌, ℕ, true, false, Option, none, some, [], ◌∷◌, codes, ◌≡◌, ◌↔◌, refl, replicate}
use wx.Session.Token.{session_prefix}
use wx.Session.Data.{Data, unmodified}
use wx.Csrf.{Config, Request, mismatch, passed, handle}
use wx.Csrf.Laws.{LetThrough, cookie_of, handle_iff}

abbrev config : Config
config = record {
  except = codes "/hook" ∷ [];
  no_cookie = false;
  cok_lifetime = 3600;
  cok_path = [];
  cok_domain = [];
  cok_secure = true;
  cok_same_site = 2;
}

abbrev request : Request
request = record {
  method = codes "POST";
  path = codes "/form";
  form_token = [];
  meta_token = codes "x";
  cookie_token = [];
}

abbrev next : ℕ → Option ℕ × ℕ
next n = (none, n + 1)

-- The token is another, and its last bytes are no sum.
handle_iff_example :
    ((handle config request (codes "secret") next 0 ≡ mismatch)
      ↔ (¬ LetThrough config request (codes "secret")))
    × ((handle config request (codes "secret") next 0
          ≡ passed none 1 (cookie_of config (codes "secret")))
        ↔ LetThrough config request (codes "secret"))
handle_iff_example = handle_iff config request (codes "secret") next 0

stopped : handle config request (codes "secret") next 0 ≡ mismatch
unfolding handle
stopped = refl

-- No method of a request, but it stands between GET and OPTIONS.
part_of_methods :
    handle config (record request { method = codes "TOP" }) (codes "secret") next 0
    ≡ passed none 1 (cookie_of config (codes "secret"))
unfolding handle
part_of_methods = refl

abbrev fresh : Data ℕ
fresh = record {
  status = unmodified;
  token = record { front = session_prefix; text = []; spare = replicate 43 0 };
  csrf_token = record { front = []; text = []; spare = replicate 30 0 };
  values = some [];
  started = false;
}
