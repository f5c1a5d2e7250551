-- ===== src/Session/Renew.antt =====
-- fasthttp-routing/middleware/session/data.go: those methods of Data that make tokens or merge values,
-- without the store. What the random reader writes is an argument, `none` for an error of the reader.
use wx.Common.{
  Bool, true, false, not, ◌&&◌, Option, none, some, List, [], ◌∷◌, Bytes, Panics, panic, done,
  ◌>>=◌, nil_pointer, lookup, assign, ◌==◌, if◌then◌else◌, length,
}
use wx.Session.Token.{
  emptied, resliced, refilled, generate_token2, is_valid_token, url_encoded_token_len,
  url_encoded_csrf_token_len,
}
use wx.Session.Data.{Value, Data}

module _ {T : Type 0} where
  -- `Data.SetToken`; the result tells whether the token is new.
  unfoldable pub set_token : Option Bytes → Bytes → Data T → Panics (Data T × Bool)
  unfolding is_valid_token generate_token2
  set_token random token d =
      if not (length token == 0) && is_valid_token token
      then done (record d { token = refilled d.token token }, false)
      else (resliced url_encoded_token_len d.token
          >>= generate_token2 random
          >>= (λ t. done (record d { token = t }, true)))

  -- The end of `Data.Start`: a csrf token, if there is none.
  unfoldable pub started_with : Option Bytes → Data T → Panics (Data T)
  unfolding generate_token2
  started_with random d =
      if length d.csrf_token.text == 0
      then (resliced url_encoded_csrf_token_len d.csrf_token
          >>= generate_token2 random
          >>= (λ t. done (record d { csrf_token = t; started = true })))
      else done (record d { started = true })

  -- The values of another session, for the keys that are new.
  unfoldable pub merged :
      List (Bytes × Value T)
      → Option (List (Bytes × Value T))
      → Panics (Option (List (Bytes × Value T)))
  unfolding lookup assign
  merged [] m = done m
  merged ((k, v) ∷ more) none = panic nil_pointer
  merged ((k, v) ∷ more) (some m) = elim (lookup k m) [
    | none ↦ merged more (some (assign k v m))
    | some w ↦ merged more (some m)
  ]

  -- `Data.RegenerateCsrfToken`, whose destination has no bytes.
  unfoldable pub regenerate_csrf_token : Option Bytes → Data T → Panics (Data T)
  unfolding generate_token2
  regenerate_csrf_token random d =
      generate_token2 random (emptied d.csrf_token) >>= (λ t. done (record d { csrf_token = t }))
