-- ===== src/Csrf/Resent.antt =====
-- The csrf token of a session that fasthttp-routing/middleware/session/data.go starts, on its way through
-- the cookie of one response into the header of a later request.
use wx.Common.{Option, none, some, List, [], ◌∷◌, Bytes}
use wx.Session.Data.{Data}
use wx.Csrf
use wx.Csrf.{Setting, value, Request, Outcome, mismatch, passed}

-- The value that a cookie is given.
abbrev pub value_in : List Setting → Option Bytes
value_in [] = none
value_in (Csrf.domain v ∷ rest) = value_in rest
value_in (Csrf.path v ∷ rest) = value_in rest
value_in (Csrf.key v ∷ rest) = value_in rest
value_in (value v ∷ rest) = some v
value_in (Csrf.max_age n ∷ rest) = value_in rest
value_in (Csrf.same_site n ∷ rest) = value_in rest
value_in (Csrf.secure b ∷ rest) = value_in rest

-- A later request that has the value in the second header alone.
abbrev pub resent : Bytes → Request → Request
resent t q = record q { form_token = []; meta_token = []; cookie_token = t }

module _ {R E : Type 0} where
  -- The value of the cookie that is sent, if one is.
  abbrev pub cookie_value : Outcome R E → Option Bytes
  cookie_value mismatch = none
  cookie_value (passed e r none) = none
  cookie_value (passed e r (some settings)) = value_in settings
