-- ===== src/Compress/Chained.antt =====
-- The compression middleware in front of handlers that do not call `Next`.
use wx.Common.{
  zero, suc, Bool, true, false, Option, none, some, List, [], ◌∷◌, map, length, ℤ, pos, negsuc, ltb,
  lt→ltb, ◌≡◌, inl, inr, Option-cases, refl, ap, ◌∙◌, arith, if◌then◌else◌,
}
use wx.Routing.Chain.{Handler, go_on, perform, serve, run_next, loop, return, next, look}
use wx.Routing.Chain.Pipeline.{Verdict, simple, pipeline, result}
use wx.Routing.Chain.Around.{after, again_of, around, around_nothing}
use wx.Compress.{
  Config, Compression, conf, compressor_of, compressed, new, is_out_of_range, level_default,
}

module _ {S : Type 0} where
  -- The compression that a level asks for: none for `LevelDisabled`, -1, the best speed for 1, the best
  -- compression for 2, and the default for every other integer.
  abbrev pub asked_by : Compression S → ℤ → Option (S → S)
  asked_by f (negsuc zero) = none
  asked_by f (pos (suc zero)) =
      some (f.compress_handler_brotli_level f.compress_brotli_best_speed f.compress_best_speed)
  asked_by f (pos (suc (suc zero))) = some (
      f.compress_handler_brotli_level f.compress_brotli_best_compression
        f.compress_best_compression)
  asked_by f level = some (
      f.compress_handler_brotli_level f.compress_brotli_default_compression
        f.compress_default_compression)

  -- That of the first configuration; without one, the default.
  abbrev pub asked : Compression S → List (Config S) → Option (S → S)
  asked f [] = asked_by f (pos 0)
  asked f (cfg ∷ cfgs) = asked_by f cfg.level

  -- A context that the first configuration, if there is one, leaves alone.
  abbrev pub skips : List (Config S) → S → Bool
  skips [] s = false
  skips (cfg ∷ cfgs) s = cfg.next s

  asked_level :
      (f : Compression S) (level : ℤ)
      → compressor_of f (if is_out_of_range level then level_default else level) ≡ asked_by f level
  unfolding compressor_of
  asked_level f (negsuc zero) = refl
  asked_level f (negsuc (suc n)) =
      let e : ltb 0 (suc n) ≡ true = lt→ltb 0 (suc n) (omega arith) in rw e refl
  asked_level f (pos zero) = refl
  asked_level f (pos (suc zero)) = refl
  asked_level f (pos (suc (suc zero))) = refl
  asked_level f (pos (suc (suc (suc n)))) =
      let e : ltb 2 (suc (suc (suc n))) ≡ true = lt→ltb 2 (suc (suc (suc n))) (omega arith) in
      rw e refl

  level_conf :
      (b : Bool) (cfg : Config S)
      → (if b then record cfg { level = level_default } else cfg).level
        ≡ (if b then level_default else cfg.level)
  level_conf true cfg = refl
  level_conf false cfg = refl

  next_conf :
      (b : Bool) (cfg : Config S)
      → (if b then record cfg { level = level_default } else cfg).next ≡ cfg.next
  next_conf true cfg = refl
  next_conf false cfg = refl

  asked-conf :
      (f : Compression S) (cfgs : List (Config S))
      → compressor_of f (conf cfgs).level ≡ asked f cfgs
  unfolding conf compressor_of
  asked-conf f [] = refl
  asked-conf f (cfg ∷ cfgs) =
      rw (level_conf (is_out_of_range cfg.level) cfg) (asked_level f cfg.level)

  skips-conf : (cfgs : List (Config S)) (s : S) → (conf cfgs).next s ≡ skips cfgs s
  unfolding conf
  skips-conf [] s = refl
  skips-conf (cfg ∷ cfgs) s = ap (λ g. g s) (next_conf (is_out_of_range cfg.level) cfg)

module _ {S E : Type 0} where
  -- What a chain gives, compressed unless the middleware is skipped or disabled.
  abbrev pub chained : Option (S → S) → Bool → S × Option E → S × Option E
  chained none skipped r = r
  chained (some compressor) true r = r
  chained (some compressor) false r = after compressor r

  only_next :
      (fs : List (S → S × Verdict E)) (s : S)
      → result (serve (next (λ x. return x) ∷ map simple fs) s) ≡ some (pipeline fs s)
  unfolding serve run_next loop perform
  only_next fs s = around_nothing (next (λ x. return x)) fs s

  unless_skipped :
      (skip : S → Bool) (compressor : S → S) (fs : List (S → S × Verdict E)) (s : S)
      → result (
          serve
            (look (λ c. if skip c then next (λ x. return x) else next (compressed compressor))
              ∷ map simple fs)
            s)
        ≡ some (chained (some compressor) (skip s) (pipeline fs s))
  unfolding serve run_next loop perform
  unless_skipped skip compressor fs s =
      branch (look (λ c. if skip c then next (λ x. return x) else next (compressed compressor)))
        (skip s)
    where
      branch :
          (h : Handler S E) (b : Bool)
          → result (
              go_on (again_of (length (h ∷ map simple fs)) (h ∷ map simple fs)) (
                perform
                  (again_of (length (h ∷ map simple fs)) (h ∷ map simple fs))
                  (length (h ∷ map simple fs))
                  (if b then next (λ x. return x) else next (compressed compressor))
                  (record { position = 1; state = s })))
            ≡ some (chained (some compressor) b (pipeline fs s))
      branch h true = around_nothing h fs s
      branch h false =
          around compressor (compressed compressor) h fs s (λ again n c. (refl, λ x. refl))

  new_disabled :
      (f : Compression S) (cfgs : List (Config S))
      → compressor_of f (conf cfgs).level ≡ none
      → new {E = E} f cfgs ≡ next (λ x. return x)
  unfolding new
  new_disabled f cfgs e = rw (new, e) refl

  new_enabled :
      (f : Compression S) (cfgs : List (Config S)) (compressor : S → S)
      → compressor_of f (conf cfgs).level ≡ some compressor
      → new {E = E} f cfgs
        ≡ look
            (λ c. if (conf cfgs).next c then next (λ x. return x) else next (compressed compressor))
  unfolding new
  new_enabled f cfgs compressor e = rw (new, e) refl

  chain_of :
      (f : Compression S) (cfgs : List (Config S)) (fs : List (S → S × Verdict E)) (s : S)
      → result (serve (new f cfgs ∷ map simple fs) s)
        ≡ some (chained (compressor_of f (conf cfgs).level) ((conf cfgs).next s) (pipeline fs s))
  chain_of f cfgs fs s = elim (Option-cases (compressor_of f (conf cfgs).level)) [
    | inl e ↦ rw (new_disabled f cfgs e, e) (only_next fs s)
    | inr (c, e) ↦ rw (new_enabled f cfgs c e, e) (unless_skipped (conf cfgs).next c fs s)
  ]

  -- For any configuration, the chain of the compression middleware and handlers that do not call `Next`
  -- ends with the error and the state of these handlers: if there is no error and the configuration
  -- does not skip the context, the state is compressed with the levels for the best speed if the level
  -- of the configuration is 1, with those for the best compression if it is 2, not at all if it is -1,
  -- and with the default levels if it is any other integer, or if there is no configuration.
  pub compress-pipeline :
      (f : Compression S) (cfgs : List (Config S)) (fs : List (S → S × Verdict E)) (s : S)
      → result (serve (new f cfgs ∷ map simple fs) s)
        ≡ some (chained (asked f cfgs) (skips cfgs s) (pipeline fs s))
  compress-pipeline f cfgs fs s =
      chain_of f cfgs fs s
      ∙ ap (λ o. some (chained o ((conf cfgs).next s) (pipeline fs s))) (asked-conf f cfgs)
      ∙ ap (λ b. some (chained (asked f cfgs) b (pipeline fs s))) (skips-conf cfgs s)
