-- ===== src/Session/Manager/Iterate/Tests.antt =====
-- Two sessions in a store whose state counts the calls.
use wx.Common.{
  ℕ, ◌+◌, Option, none, some, inl, inr, ◌⊎◌, List, [], ◌∷◌, Bytes, codes, Panics, panic, done,
  nil_pointer, index_range, Returns, length, refl, true, false, ◌≡◌,
}
use wx.Session.Data.{Value, nil, Data, unmodified, put}
use wx.Session.Renew.{started_with}
use wx.Session.Manager.{Manager, Sonic, Failure, missing, codec_error}
use wx.Session.Manager.Iterate.{Iterable, do_store_all, iterate}
use wx.Session.Manager.Iterate.Visits.{visits, iterate-visits, iterate_corrupt}

abbrev all_entries : List (Bytes × Bytes)
all_entries = (codes "a", codes "1") ∷ (codes "b", codes "2") ∷ []

abbrev store : Iterable ℕ
store = record { all_ctx = none; all = some (λ n. done (inr (some all_entries), n + 1)) }

abbrev manager : Sonic ℕ ℕ → Manager ℕ ℕ
manager codec = record {
  store = record {
    find = λ k n. (missing, n);
    commit = λ k b t m n. (none, n);
    delete = λ k n. (none, n);
  };
  ctx_store = none;
  codec = codec;
  expiry = 9;
}

abbrev plain : Sonic ℕ ℕ
plain = record { marshal = λ m c. (true, []); unmarshal = λ b. inr (some [], b) }

abbrev broken : Sonic ℕ ℕ
broken = record { marshal = λ m c. (true, []); unmarshal = λ b. inl (codes "eof") }

abbrev pooled : Data ℕ
pooled = record {
  status = unmodified;
  token = record { front = []; text = []; spare = [] };
  csrf_token = record { front = []; text = []; spare = [] };
  values = some [];
  started = false;
}

abbrev visit : Bytes → Bytes → Option (List (Bytes × Value ℕ)) → ℕ → Option Bytes × ℕ
visit token csrf values n = (none, n + length token + length csrf)

abbrev fn : Data ℕ → ℕ → Panics (Option Bytes × Data ℕ × ℕ)
fn d n = done (none, d, n + length d.token.text + length d.csrf_token.text)

all_listed : do_store_all store true 0 ≡ done (inr all_entries, 1)
unfolding do_store_all
all_listed = refl

iterate-visits_example :
    Returns {A = Option (Bytes ⊎ Failure) × Data ℕ × ℕ}
      (λ r. ((r.0, r.2) ≡ visits (manager plain) visit all_entries 1) × (r.1.token.text ≡ []))
      (iterate (manager plain) fn store true pooled 0)
iterate-visits_example =
    iterate-visits (manager plain) visit fn store true all_entries pooled 0 1 (λ d st. (d, refl))
      refl all_listed

iterate_corrupt_example :
    Returns {A = Option (Bytes ⊎ Failure) × Data ℕ × ℕ}
      (λ r.
        (r.0 ≡ some (inr (codec_error (codes "eof"))))
        × (put (codes "k") nil r.1 ≡ panic nil_pointer)
        × (started_with none r.1 ≡ panic index_range))
      (iterate (manager broken) fn store true pooled 0)
iterate_corrupt_example =
    iterate_corrupt (manager broken) fn store true (codes "a") (codes "1") (codes "eof") (codes "k")
      ((codes "b", codes "2") ∷ []) pooled 0 1 nil none all_listed refl
