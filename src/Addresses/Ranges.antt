-- ===== src/Addresses/Ranges.antt =====
-- helpers/utilnet/ip.go: `AddressesAndRangesToIPNets`. `Net` is what the code uses of Go's package net;
-- a net.IP is a slice of bytes.
use wx.Common.{
  ℕ, ◌*◌, Option, none, some, ◌⊎◌, inl, inr, List, [], ◌∷◌, Bytes, Bool, false, ◌||◌, length,
  if◌then◌else◌,
}
use wx.Negotiation.Header.{has_byte}

-- `net.IPNet`
pub record IpNet : Type 0 where
  pub ip : Bytes
  pub mask : Bytes

pub record Net : Type 0 where
  pub parse_ip : Bytes → Option Bytes
  pub to4 : Bytes → Option Bytes
  pub text : Bytes → Bytes
  pub parse_cidr : Bytes → Option IpNet
  pub cidr_mask : ℕ → ℕ → Bytes
  pub contains : IpNet → Bytes → Bool

-- The three errors, with the text of the range.
pub data RangeError : Type 0 where
  zone_error cidr_error ip_error : Bytes → RangeError

module _ (net : Net) where
  -- A single address becomes a range of itself.
  unfoldable pub single : Bytes → IpNet
  single ip =
      let short : Bytes = elim (net.to4 ip) [ none ↦ ip | some ip4 ↦ ip4 ] in
      record { ip = short; mask = net.cidr_mask (length short * 8) (length short * 8) }

  unfoldable pub range_of : Bytes → RangeError ⊎ IpNet
  unfolding single
  range_of r =
      if has_byte b'%' r
      then inl (zone_error r)
      else if has_byte b'/' r
      then elim (net.parse_cidr r) [ none ↦ inl (cidr_error r) | some n ↦ inr n ]
      else elim (net.parse_ip r) [ none ↦ inl (ip_error r) | some ip ↦ inr (single ip) ]

  -- `AddressesAndRangesToIPNets`
  unfoldable pub addresses_to_nets : List Bytes → RangeError ⊎ List IpNet
  unfolding range_of
  addresses_to_nets [] = inr []
  addresses_to_nets (r ∷ ranges) = elim (range_of r) [
    | inl e ↦ inl e
    | inr n ↦ elim (addresses_to_nets ranges) [ inl e ↦ inl e | inr ns ↦ inr (n ∷ ns) ]
  ]

  -- Whether one of the ranges holds the address.
  unfoldable pub in_ranges : List IpNet → Bytes → Bool
  in_ranges [] ip = false
  in_ranges (n ∷ ns) ip = net.contains n ip || in_ranges ns ip
