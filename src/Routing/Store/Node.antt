-- ===== src/Routing/Store/Node.antt =====
-- The radix tree of fasthttp-routing/store.go: its nodes, the search for a parameter token, and the
-- reading and writing of parameter values. `arity` is the source's `pindex + 1`, so that the -1 of
-- a node before any parameter is 0. The array of 256 children is a list of (first byte, child).
use wx.Common.{
  suc, max, ℕ, ◌+◌, ◌-◌, ◌≤◌, ◌≡◌, Bool, Option, none, some, List, [], ◌∷◌, Bytes, Panics, panic,
  index_range, done, ltb, ◌==◌, if◌then◌else◌, length, set, take, drop,
}

-- Go's regexp package for the expression "^" followed by a pattern: whether `MustCompile` accepts
-- it, the end of the match that `FindStringIndex` reports, and `MatchString`. The engine is not
-- modelled; what is used of it is that a match ends inside of the text.
pub record Regexp : Type 0 where
  pub compiles : Bytes → Bool
  pub find_end : Bytes → Bytes → Option ℕ
  pub matches : Bytes → Bytes → Bool
  pub find_end-le : (p s : Bytes) (n : ℕ) → find_end p s ≡ some n → n ≤ length s

pub record Info {ℓ} (D : Type ℓ) : Type ℓ where
  pub static : Bool
  pub key : Bytes
  pub value : Option D
  pub order : ℕ
  pub min_order : ℕ
  pub regex : Option Bytes
  pub arity : ℕ
  pub pnames : List Bytes

mutual
  pub data Node {ℓ} (D : Type ℓ) : Type ℓ where
    node : Info D → Kids D → Nodes D → Node D

  pub data Kids {ℓ} (D : Type ℓ) : Type ℓ where
    no_kids : Kids D
    kid : ℕ → Node D → Kids D → Kids D

  pub data Nodes {ℓ} (D : Type ℓ) : Type ℓ where
    no_nodes : Nodes D
    more : Node D → Nodes D → Nodes D

abbrev pub info {ℓ} : {D : Type ℓ} → Node D → Info D
info (node i ks ps) = i

-- `n.children[b] = c`
unfoldable pub put {ℓ} : {D : Type ℓ} → ℕ → Node D → Kids D → Kids D
put b c no_kids = kid b c no_kids
put b c (kid a d ks) = if a == b then kid a c ks else kid a d (put b c ks)

-- `append(n.pchildren, c)`
unfoldable pub push {ℓ} : {D : Type ℓ} → Nodes D → Node D → Nodes D
push no_nodes c = more c no_nodes
push (more p ps) c = more p (push ps c)

-- The loop of `addChild` over the key: the positions of the first '<' and of the first '>' after
-- it. `none` is the source's `p1 < 0`.
unfoldable pub find_token : ℕ → Option ℕ → Bytes → Option (ℕ × ℕ)
find_token i p0 [] = none
find_token i none (c ∷ s) = find_token (i + 1) (if c == b'<' then some i else none) s
find_token i (some p) (c ∷ s) = if c == b'>' then some (p, i) else find_token (i + 1) (some p) s

-- A parameter token's inside, split at the first ':' into name and pattern.
unfoldable pub name_pattern : Bytes → Bytes × Bytes
name_pattern [] = ([], [])
name_pattern (c ∷ s) = if c == b':' then ([], s) else (c ∷ (name_pattern s).0, (name_pattern s).1)

-- `pvalues[i] = v`
unfoldable pub write : List Bytes → ℕ → Bytes → Panics (List Bytes)
write pvalues i v = if ltb i (length pvalues) then done (set pvalues i v) else panic index_range

-- `s[a:b]` for `a ≤ b ≤ len(s)`
abbrev pub slice : ℕ → ℕ → Bytes → Bytes
slice a b s = take (b - a) (drop a s)

-- How many levels of nodes a tree has.
unfoldable mutual
  pub height {ℓ} : {D : Type ℓ} → Node D → ℕ
  height (node i ks ps) = suc (max (height_kids ks) (height_nodes ps))

  pub height_kids {ℓ} : {D : Type ℓ} → Kids D → ℕ
  height_kids no_kids = 0
  height_kids (kid b c ks) = max (height c) (height_kids ks)

  pub height_nodes {ℓ} : {D : Type ℓ} → Nodes D → ℕ
  height_nodes no_nodes = 0
  height_nodes (more c ps) = max (height c) (height_nodes ps)
