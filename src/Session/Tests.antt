-- ===== src/Session/Tests.antt =====
-- Sessions on concrete data, and the theorems on them.
use wx.Common.{
  codes, ℕ, zero, suc, ◌+◌, ◌≡◌, Bool, true, false, none, some, [], ◌∷◌, Bytes, panic, done,
  index_range, Returns, replicate, refl, arith, inl,
}
use wx.Session.Base64.{AllBytes}
use wx.Session.Token.{session_prefix, is_valid_token}
use wx.Session.Data.{flag, Data, reset, unmodified, modified}
use wx.Session.Data.Laws.{IsSound}
use wx.Session.Renew.{set_token, started_with, regenerate_csrf_token}
use wx.Session.Renewed.{set_token_roundtrip, regenerate_csrf_token_panics}
use wx.Session.Manager.{Manager, Backend, present, Failure, start, destroy}
use wx.Session.Manager.Handle.{Config, handle_stateful_request, set_cookie, cookie_settings}
use wx.Session.Manager.Facade.{KeepsOthers, put-get_both}
use wx.Session.Manager.Destroyed.{destroy_undone, start_corrupt}

-- Instants are numbers.
abbrev pooled : Data ℕ
pooled = record {
  status = unmodified;
  token = record { front = session_prefix; text = []; spare = replicate 43 0 };
  csrf_token = record { front = []; text = []; spare = replicate 30 0 };
  values = some [];
  started = false;
}

pooled-IsSound : IsSound pooled
pooled-IsSound = record {
  prefixed = refl;
  sized = refl;
  csrf_sized = omega arith;
  made = ([], refl);
}

AllBytes-replicate : (n : ℕ) → AllBytes (replicate n 7)
AllBytes-replicate zero = tt
AllBytes-replicate (suc n) = (omega arith, AllBytes-replicate n)

abbrev sevens : ℕ → Bytes
sevens n = replicate n 7

no_cookie : is_valid_token [] ≡ false
unfolding is_valid_token
no_cookie = refl

set_token_roundtrip_example :
    Returns
      (λ r.
        (r.1 ≡ true)
        × IsSound r.0
        × Returns
            (λ l. (l.1 ≡ false) × (l.0.token.text ≡ r.0.token.text) × IsSound l.0)
            (set_token none r.0.token.text pooled))
      (set_token (some (sevens 30)) [] pooled)
set_token_roundtrip_example =
    set_token_roundtrip (sevens 30) [] pooled pooled none pooled-IsSound pooled-IsSound refl
      (AllBytes-replicate 30) no_cookie

regenerate_example : regenerate_csrf_token (some (sevens 18)) pooled ≡ panic index_range
regenerate_example = regenerate_csrf_token_panics (sevens 18) pooled refl (AllBytes-replicate 18)

-- A store that counts its calls and holds the same bytes under every key, and a codec that encodes to
-- one byte and decodes nothing.
abbrev backend : Backend ℕ ℕ
backend = record {
  find = λ k n. (present (5 ∷ []), n + 1);
  commit = λ k b t m n. (none, n + 10);
  delete = λ k n. (none, n + 100);
}

abbrev manager : Manager ℕ ℕ
manager = record {
  store = backend;
  ctx_store = none;
  codec = record { marshal = λ m c. (true, 5 ∷ []); unmarshal = λ b. inl [] };
  expiry = 9;
}

abbrev config : Config
config = record {
  cok_name = 115 ∷ [];
  cok_path = 47 ∷ [];
  cok_domain = [];
  cok_secure = false;
  disable_cok_http_only = false;
  cok_same_site = 2;
  disable_cok_persist = false;
  lifetime = 3600;
}

-- A session in use.
abbrev used : Bool → Data ℕ
used b = record {
  status = modified;
  token = record { front = session_prefix; text = sevens 43; spare = [] };
  csrf_token = record { front = []; text = sevens 30; spare = [] };
  values = some ((1 ∷ [], flag true) ∷ []);
  started = b;
}

used-IsSound : (b : Bool) → IsSound (used b)
used-IsSound b = record {
  prefixed = refl;
  sized = refl;
  csrf_sized = omega arith;
  made = (_, refl);
}

start-used : start manager none true false (used false) 0 ≡ done (none, used true, 0)
unfolding start started_with
start-used = refl

destroy_undone_example :
    handle_stateful_request {E = Failure} config manager none true
      (used false)
      0
      (destroy manager false)
    ≡ done ((none, set_cookie (cookie_settings config [] false)), reset (used true), 110)
destroy_undone_example =
    destroy_undone config manager none true (used false) (used true) 0 0 100 110 (5 ∷ []) start-used
      (used-IsSound true) refl refl refl

start_corrupt_example : start manager none false false (used false) 0 ≡ panic index_range
start_corrupt_example =
    start_corrupt manager none (used false) 0 1 (5 ∷ []) [] (used-IsSound false) refl refl

put-get_both_example : KeepsOthers (codes "k") (codes "j") (flag true) pooled
put-get_both_example =
    put-get_both pooled (codes "k") (codes "j") (flag true) pooled-IsSound (λ e. ground arith)
