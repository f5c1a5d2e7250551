-- ===== src/Compress.antt =====
-- fasthttp-routing/middleware/compress: compress.go and config.go. `Compression` is what the code uses
-- of fasthttp: `CompressHandlerBrotliLevel` around a handler that does nothing, as a change of the
-- context, and its levels. A nil `Next` skips nothing.
pub mod Chained
mod Tests
use wx.Common.{
  ℕ, zero, suc, Bool, true, false, ◌||◌, Option, none, some, List, [], ◌∷◌, ℤ, pos, negsuc, ltb,
  if◌then◌else◌,
}
use wx.Routing.Chain.{Handler, return, look, update, next}

module _ (S : Type 0) where
  pub record Config : Type 0 where
    pub next : S → Bool
    pub level : ℤ

  pub record Compression : Type 0 where
    pub compress_handler_brotli_level : ℤ → ℤ → S → S
    pub compress_brotli_default_compression : ℤ
    pub compress_default_compression : ℤ
    pub compress_brotli_best_speed : ℤ
    pub compress_best_speed : ℤ
    pub compress_brotli_best_compression : ℤ
    pub compress_best_compression : ℤ

-- `LevelDisabled`, `LevelDefault`, `LevelBestSpeed`, `LevelBestCompression`
abbrev pub level_disabled : ℤ
level_disabled = negsuc 0

abbrev pub level_default : ℤ
level_default = pos 0

abbrev pub level_best_speed : ℤ
level_best_speed = pos 1

abbrev pub level_best_compression : ℤ
level_best_compression = pos 2

-- Less than `LevelDisabled` or greater than `LevelBestCompression`.
abbrev pub is_out_of_range : ℤ → Bool
is_out_of_range (negsuc n) = ltb 0 n
is_out_of_range (pos n) = ltb 2 n

module _ {S : Type 0} where
  -- `ConfigDefault`
  abbrev pub config_default : Config S
  config_default = record { next = λ s. false; level = level_default }

  -- `conf`
  unfoldable pub conf : List (Config S) → Config S
  conf [] = config_default
  conf (cfg ∷ cfgs) =
      if is_out_of_range cfg.level then record cfg { level = level_default } else cfg

  -- The `switch` of `New`: no compressor for any other level.
  unfoldable pub compressor_of : Compression S → ℤ → Option (S → S)
  compressor_of f (negsuc n) = none
  compressor_of f (pos zero) = some (
      f.compress_handler_brotli_level f.compress_brotli_default_compression
        f.compress_default_compression)
  compressor_of f (pos (suc zero)) =
      some (f.compress_handler_brotli_level f.compress_brotli_best_speed f.compress_best_speed)
  compressor_of f (pos (suc (suc zero))) = some (
      f.compress_handler_brotli_level f.compress_brotli_best_compression
        f.compress_best_compression)
  compressor_of f (pos (suc (suc (suc n)))) = none

module _ {S E : Type 0} where
  -- What the handler does behind `Next`.
  abbrev pub compressed : (S → S) → Option E → Handler S E
  compressed compressor (some e) = return (some e)
  compressed compressor none = update compressor (return none)

  -- `New`
  unfoldable pub new : Compression S → List (Config S) → Handler S E
  unfolding conf compressor_of
  new f cfgs =
      let cfg : Config S = conf cfgs in
      elim (compressor_of f cfg.level) [
        | none ↦ next (λ e. return e)
        | some compressor ↦
            look (λ c. if cfg.next c then next (λ e. return e) else next (compressed compressor))
      ]
