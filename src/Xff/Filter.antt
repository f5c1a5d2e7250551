-- ===== src/Xff/Filter.antt =====
-- `normalizeAndFilterClientIps`: the last address that is none of a trusted proxy.
use wx.Common.{
  Bool, ℕ, zero, suc, ◌+◌, ◌≤◌, ◌≡◌, ◌⊎◌, inl, inr, true, false, none, some, List, [], ◌∷◌, ◌++◌,
  append_assoc, append-nil, Bytes, panic, done, index_range, All, All-get_elem?, get_elem?,
  get_elem?-lt, get_elem?-append, length, length-append, ◌==◌, if◌then◌else◌, refl, ap, arith, ◌∙◌,
}
use wx.Addresses.{Address, split_ip_and_port}
use wx.Addresses.Ranges.{Net, IpNet, in_ranges}
use wx.Routing.Router.Register.{split_comma}
use wx.Xff.{filter_client_ips}

get_elem?-append_right :
    (before after : List Bytes) (x : Bytes) (k : ℕ)
    → get_elem? (before ++ x ∷ after) (length before + suc k) ≡ get_elem? after k
get_elem?-append_right [] after x k = let next : 0 + suc k ≡ suc k = omega arith in rw next refl
get_elem?-append_right (b ∷ before) after x k =
    let next : suc (length before) + suc k ≡ suc (length before + suc k) = omega arith in
    rw next (get_elem?-append_right before after x k)

if_same : {A : Type 0} (b : Bool) (x : A) → (if b then x else x) ≡ x
if_same true x = refl
if_same false x = refl

-- The elements of a list behind a comma each.
abbrev pub after_commas : List Bytes → Bytes
after_commas [] = []
after_commas (q ∷ qs) = b',' ∷ (q ++ after_commas qs)

abbrev pub NoComma : Bytes → Type 0
NoComma = All (λ c. (c == b',') ≡ false)

pub split_comma-append :
    (part s t : Bytes) → split_comma part (s ++ b',' ∷ t) ≡ split_comma part s ++ split_comma [] t
unfolding split_comma
split_comma-append part [] t = refl
split_comma-append part (c ∷ s) t =
    rw (split_comma-append [] s t, split_comma-append (part ++ c ∷ []) s t) (ground arith)

pub split_comma_plain :
    (part x : Bytes) (qs : List Bytes)
    → NoComma x
    → All NoComma qs
    → split_comma part (x ++ after_commas qs) ≡ (part ++ x) ∷ qs
unfolding split_comma
split_comma_plain part [] [] h k = rw (append-nil part) refl
split_comma_plain part [] (q ∷ qs) h (hq, k) =
    rw (append-nil part, split_comma_plain [] q qs hq k) refl
split_comma_plain part (c ∷ x) qs (e, h) k =
    rw (e, split_comma_plain (part ++ c ∷ []) x qs h k, append_assoc part (c ∷ []) x) refl

module _ (net : Net) (ranges : List IpNet) where
  -- An element that the loop goes on from: no address, or one of a trusted proxy.
  abbrev pub Passed : Bytes → Type 0
  Passed q =
      (a : Address) × (split_ip_and_port q ≡ done a)
      × ((a.invalid ≡ true)
          ⊎ (net.parse_ip a.ip ≡ none)
          ⊎ ((ip : Bytes) × (net.parse_ip a.ip ≡ some ip) × (in_ranges net ranges ip ≡ true)))

  -- An element with an address that is none of a trusted proxy.
  abbrev pub IsClient : Bytes → Bytes → Type 0
  IsClient x ip =
      (a : Address) × (split_ip_and_port x ≡ done a)
      × (a.invalid ≡ false)
      × (net.parse_ip a.ip ≡ some ip)
      × (in_ranges net ranges ip ≡ false)

  -- An element that is passed is left out.
  filter-Passed :
      (ips : List Bytes) (i : ℕ) (q : Bytes)
      → get_elem? ips i ≡ some q
      → Passed q
      → filter_client_ips net ranges ips (suc i) ≡ filter_client_ips net ranges ips i
  unfolding filter_client_ips
  filter-Passed ips i q e (a, s, inl h) = rw (e, s, h) refl
  filter-Passed ips i q e (a, s, inr (inl h)) = rw (e, s, h) (if_same a.invalid _)
  filter-Passed ips i q e (a, s, inr (inr (ip, h, k))) = rw (e, s, h, k) (if_same a.invalid _)

  filter-IsClient :
      (ips : List Bytes) (i : ℕ) (x ip : Bytes)
      → get_elem? ips i ≡ some x
      → IsClient x ip
      → filter_client_ips net ranges ips (suc i) ≡ done (net.text ip)
  unfolding filter_client_ips
  filter-IsClient ips i x ip e (a, s, h, p, k) = rw (e, s, h, p, k) refl

  -- Elements that are passed, at the end, are left out.
  filter-after :
      (before after : List Bytes) (x : Bytes) (n : ℕ)
      → n ≤ length after
      → All Passed after
      → filter_client_ips net ranges (before ++ x ∷ after) (suc (length before) + n)
        ≡ filter_client_ips net ranges (before ++ x ∷ after) (suc (length before))
  filter-after before after x zero le h =
      ap (filter_client_ips net ranges (before ++ x ∷ after)) (omega arith)
  filter-after before after x (suc n) le h =
      let next : suc (length before) + suc n ≡ suc (length before + suc n) = omega arith in
      let last : length before + suc n ≡ suc (length before) + n = omega arith in
      let (q, e) = get_elem?-lt after n (omega (arith, le)) in
      ap (filter_client_ips net ranges (before ++ x ∷ after)) next
      ∙ filter-Passed (before ++ x ∷ after) (length before + suc n) q
          (get_elem?-append_right before after x n ∙ e) (All-get_elem? Passed after n q h e)
      ∙ ap (filter_client_ips net ranges (before ++ x ∷ after)) last
      ∙ filter-after before after x n (omega (arith, le)) h

  pub filter_client_ips_lem :
      (before after : List Bytes) (x ip : Bytes)
      → IsClient x ip
      → All Passed after
      → filter_client_ips net ranges (before ++ x ∷ after) (length (before ++ x ∷ after))
        ≡ done (net.text ip)
  filter_client_ips_lem before after x ip c h =
      let n : length (before ++ x ∷ after) ≡ suc (length before) + length after =
        length-append before (x ∷ after) ∙ omega arith in
      ap (filter_client_ips net ranges (before ++ x ∷ after)) n
      ∙ filter-after before after x (length after) (omega arith) h
      ∙ filter-IsClient (before ++ x ∷ after) (length before) x ip (get_elem?-append before after x)
          c

  -- An empty element that the loop reaches.
  pub filter-empty :
      (before after : List Bytes)
      → All Passed after
      → filter_client_ips net ranges (before ++ [] ∷ after) (length (before ++ [] ∷ after))
        ≡ panic index_range
  unfolding filter_client_ips split_ip_and_port
  filter-empty before after h =
      let n : length (before ++ [] ∷ after) ≡ suc (length before) + length after =
        length-append before ([] ∷ after) ∙ omega arith in
      ap (filter_client_ips net ranges (before ++ [] ∷ after)) n
      ∙ filter-after before after [] (length after) (omega arith) h
      ∙ rw (get_elem?-append before after []) refl
