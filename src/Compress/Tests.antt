-- ===== src/Compress/Tests.antt =====
-- A state of a number: a handler adds one, and compression adds ten.
use wx.Common.{ℕ, ◌+◌, ◌==◌, some, List, [], ◌∷◌, map, pos, ◌≡◌}
use wx.Routing.Chain.{serve}
use wx.Routing.Chain.Pipeline.{Verdict, continue, simple, pipeline, result}
use wx.Compress.{Config, Compression, new}
use wx.Compress.Chained.{chained, asked, skips, compress-pipeline}

abbrev adds : Compression ℕ
adds = record {
  compress_handler_brotli_level = λ a b n. n + 10;
  compress_brotli_default_compression = pos 4;
  compress_default_compression = pos 6;
  compress_brotli_best_speed = pos 0;
  compress_best_speed = pos 1;
  compress_brotli_best_compression = pos 11;
  compress_best_compression = pos 9;
}

-- A level out of range.
abbrev configs : List (Config ℕ)
configs = record { next = λ n. n == 5; level = pos 7 } ∷ []

abbrev steps : List (ℕ → ℕ × Verdict ℕ)
steps = (λ n. (n + 1, continue)) ∷ []

compress-pipeline_example :
    result (serve (new adds configs ∷ map simple steps) 3)
    ≡ some (chained (asked adds configs) (skips configs 3) (pipeline steps 3))
compress-pipeline_example = compress-pipeline adds configs steps 3
