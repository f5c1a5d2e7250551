-- ===== src/Addresses.antt =====
-- helpers/utilnet/ip.go: an address is taken apart into its host and its port.
pub mod Laws
pub mod Ranges
use wx.Common.{
  ℕ, zero, suc, ◌+◌, Bool, true, false, ◌||◌, Option, none, some, List, [], ◌∷◌, Bytes, Panics,
  panic, done, index_range, ◌==◌, if◌then◌else◌,
}

-- The results of `SplitIpAndPort`; the error is `InvalidIP`.
pub record Address : Type 0 where
  pub ip : Bytes
  pub port : Bytes
  pub invalid : Bool

-- `strings.Index`: what stands in front of the first byte `c`, and behind it.
unfoldable pub split_first : ℕ → Bytes → Option (Bytes × Bytes)
split_first c [] = none
split_first c (b ∷ s) =
    let later : Option (Bytes × Bytes) = elim (split_first c s) [
      | none ↦ none
      | some p ↦ some (b ∷ p.0, p.1)
    ] in
    if b == c then some ([], s) else later

-- `strings.LastIndex`
unfoldable pub split_last : ℕ → Bytes → Option (Bytes × Bytes)
split_last c [] = none
split_last c (b ∷ s) = elim (split_last c s) [
  | some p ↦ some (b ∷ p.0, p.1)
  | none ↦ if b == c then some ([], s) else none
]

-- `strings.Count`
unfoldable pub count : ℕ → Bytes → ℕ
count c [] = 0
count c (b ∷ s) = let n = count c s in if b == c then suc n else n

abbrev pub split : Bytes → Bytes → Address
split ip port = record { ip = ip; port = port; invalid = false }

abbrev pub refused : Address
refused = record { ip = []; port = []; invalid = true }

-- What follows the closing bracket.
abbrev pub bracketed : Option (Bytes × Bytes) → Address
bracketed none = refused
bracketed (some (ip, [])) = split ip []
bracketed (some (ip, c ∷ [])) =
    if c == b':' then record { ip = ip; port = []; invalid = true } else refused
bracketed (some (ip, c ∷ b ∷ port)) = if c == b':' then split ip (b ∷ port) else refused

abbrev pub cut : Bytes → Option (Bytes × Bytes) → Address
cut s none = split s []
cut s (some (ip, port)) = split ip port

-- `SplitIpAndPort`
unfoldable pub split_ip_and_port : Bytes → Panics Address
unfolding split_first split_last count
split_ip_and_port [] = panic index_range
split_ip_and_port (b ∷ s) =
    let n = count b':' (b ∷ s) in
    if b == b'['
    then done (bracketed (split_first b']' s))
    else (if n == 1 || n == 8
        then done (cut (b ∷ s) (split_last b':' (b ∷ s)))
        else done (if n == 0 then split (b ∷ s) [] else refused))
