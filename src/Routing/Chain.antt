-- ===== src/Routing/Chain.antt =====
-- `Ctx.Next` and `Ctx.Abort` of fasthttp-routing/context.go: the chain of handlers of a request.
-- A handler is the tree of what it does: it looks at and changes the request's state, calls `Next`
-- and goes on with its result, aborts the chain, and returns an error or nil, or panics. That is all
-- that it can do to the index and the handlers, which are unexported fields of the context.
-- `position` is the source's `index + 1`, so that its start at -1 is 0.
pub mod Order
pub mod Pipeline
pub mod Around
pub mod Kept
use wx.Common.{
  Fault, ℕ, zero, suc, ◌+◌, Bool, Option, none, some, List, [], ◌∷◌, leb, if◌then◌else◌, length,
  get_elem?, get_elem?-lt, ◌≤◌, ◌<◌, arith,
}

-- What a handler does to a state `S` with errors `E`.
pub data Handler (S E : Type 0) : Type 0 where
  return : Option E → Handler S E
  crash : Fault → Handler S E
  look : (S → Handler S E) → Handler S E
  update : (S → S) → Handler S E → Handler S E
  next : (Option E → Handler S E) → Handler S E
  abort : Handler S E → Handler S E

pub record Context (S : Type 0) : Type 0 where
  pub position : ℕ
  pub state : S

-- How a run ends: with the error that is returned and the context, or with a panic. `stuck` is the end
-- of the fuel.
pub data Outcome (S E : Type 0) : Type 0 where
  stuck : Outcome S E
  crashed : Fault → Outcome S E
  ended : Option E → Context S → Outcome S E

module _ {S E : Type 0} where
  -- Runs a handler, given what `Next` does and the number of handlers.
  unfoldable pub perform : (Context S → Outcome S E) → ℕ → Handler S E → Context S → Outcome S E
  perform call_next n (return e) c = ended e c
  perform call_next n (crash f) c = crashed f
  perform call_next n (look k) c = perform call_next n (k c.state) c
  perform call_next n (update f k) c = perform call_next n k (record c { state = f c.state })
  perform call_next n (next k) c = elim (call_next c) [
    | stuck ↦ stuck
    | crashed f ↦ crashed f
    | ended e c' ↦ perform call_next n (k e) c'
  ]
  perform call_next n (abort k) c = perform call_next n k (record c { position = n + 1 })

  -- The handler at the index, if the loop condition `c.index < n` holds.
  abbrev pub current : List (Handler S E) → ℕ → Option (Handler S E)
  current hs zero = none
  current hs (suc i) = get_elem? hs i

  -- What follows a handler in the loop of `Next`: an error is returned at once, and the index moves
  -- on after a nil.
  unfoldable pub go_on : (Context S → Outcome S E) → Outcome S E → Outcome S E
  go_on again stuck = stuck
  go_on again (crashed f) = crashed f
  go_on again (ended (some e) d) = ended (some e) d
  go_on again (ended none d) = again d

  -- The loop of `Next`.
  unfoldable pub loop : ℕ → List (Handler S E) → Context S → Outcome S E
  unfolding perform go_on
  loop zero hs c = stuck
  loop (suc fuel) hs c =
      let again = λ (d : Context S). loop fuel hs (record d { position = suc d.position }) in
      elim (current hs c.position) [
        | none ↦ ended none c
        | some h ↦ go_on again (perform again (length hs) h c)
      ]

  -- `Next`, with fuel for each handler that is left.
  unfoldable pub run_next : List (Handler S E) → Context S → Outcome S E
  unfolding loop
  run_next hs c = loop (suc (length hs)) hs (record c { position = suc c.position })

  -- `init`, which sets the index to -1, and the call of `Next` in `HandleRequest`.
  unfoldable pub serve : List (Handler S E) → S → Outcome S E
  unfolding run_next
  serve hs s = run_next hs (record { position = 0; state = s })
