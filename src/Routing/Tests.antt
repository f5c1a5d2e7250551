-- ===== src/Routing/Tests.antt =====
-- Concrete runs of the handler chain and of the URL functions, and instances of their theorems.
use wx.Common.{
  same, ℕ, ◌+◌, ◌≡◌, refl, true, false, Option, none, some, List, [], ◌∷◌, map, length, Bytes,
  codes, done, panic, index_range, ◌≤◌,
}
use wx.Routing.Store.Node.{Regexp}
use wx.Routing.Chain.{Handler, serve, return, update, next, abort, ended}
use wx.Routing.Chain.Order.{Finishes, serve-Finishes}
use wx.Routing.Chain.Pipeline.{Verdict, continue, fail, simple, pipeline, result, serve-pipeline}
use wx.Routing.Template.{pieces, token_patterns, build_url_template, build_url_segments}
use wx.Routing.Url.{url, check_value, url_by_index, url_by_names}
use wx.Routing.Url.Index.{IsApart, outcome, first_error, url_by_index_lem, url_by_index-adjacent}
use wx.Routing.Url.Names.{two_patterns, url_by_names_panics}

-- A middleware that counts around the rest of the chain, and two handlers.
abbrev chain : List (Handler ℕ ℕ)
chain =
    update (λ s. s + 1) (next (λ e. update (λ s. s + 100) (return e)))
    ∷ update (λ s. s + 10) (return none)
    ∷ update (λ s. s + 1000) (abort (return none))
    ∷ update (λ s. s + 5) (return none)
    ∷ []

chain_runs : serve chain 0 ≡ ended none (record { position = 7; state = 1111 })
unfolding serve
chain_runs = refl

serve-Finishes_example : Finishes 4 1 (serve chain 0)
serve-Finishes_example = serve-Finishes chain 0

abbrev steps : List (ℕ → ℕ × Verdict ℕ)
steps = (λ s. (s + 1, continue)) ∷ (λ s. (s + 10, fail 404)) ∷ (λ s. (s + 100, continue)) ∷ []

serve-pipeline_example : result (serve (map simple steps) 0) ≡ some (pipeline steps 0)
serve-pipeline_example = serve-pipeline steps 0

template_runs : build_url_template (codes "/a/<id:\\d+>/b/<n>x") ≡ codes "/a/<id>/b/<n>x"
unfolding build_url_template
template_runs = refl

no_find-le : (p s : Bytes) (n : ℕ) → ◌≡◌ {A = Option ℕ} none (some n) → n ≤ length s
no_find-le p s n h = cc

-- An engine whose only match is the text "7".
abbrev seven : Regexp
seven = record {
  compiles = λ p. true;
  find_end = λ p s. none;
  matches = λ p s. same s (codes "7");
  find_end-le = no_find-le;
}

abbrev user_path : Bytes
user_path = codes "/u/<id>/p/<post>"

user_path-IsApart : IsApart (pieces user_path)
unfolding pieces
user_path-IsApart = ((λ e. cc, (λ e. cc, tt)), tt)

url_by_index_example :
    url_by_index seven (build_url_segments user_path) (codes "1" ∷ codes "2" ∷ [])
    ≡ done (outcome seven (pieces user_path) (codes "1" ∷ codes "2" ∷ []))
url_by_index_example =
    url_by_index_lem seven user_path (codes "1" ∷ codes "2" ∷ []) user_path-IsApart

url_runs :
    url_by_index seven (build_url_segments user_path) (codes "1" ∷ codes "2" ∷ [])
    ≡ done (url (codes "/u/1/p/2"))
unfolding url_by_index build_url_segments
url_runs = refl

adjacent_tokens :
    (pieces (codes "/<a><b>")).tokens
    ≡ record { before = codes "/"; inside = codes "a" }
      ∷ record { before = []; inside = codes "b" }
      ∷ []
unfolding pieces
adjacent_tokens = refl

no_errors :
    first_error seven
      (token_patterns (
        record { before = codes "/"; inside = codes "a" }
        ∷ record { before = []; inside = codes "b" }
        ∷ []))
      (codes "1" ∷ codes "2" ∷ [])
    ≡ none
unfolding first_error check_value token_patterns
no_errors = refl

url_by_index-adjacent_example :
    url_by_index seven (build_url_segments (codes "/<a><b>")) (codes "1" ∷ codes "2" ∷ [])
    ≡ panic index_range
url_by_index-adjacent_example =
    url_by_index-adjacent seven (codes "/<a><b>") (codes "1" ∷ codes "2" ∷ [])
      (record { before = codes "/"; inside = codes "a" })
      (record { before = []; inside = codes "b" }) [] adjacent_tokens (λ e. cc) refl refl no_errors

names_differ : same (codes "b") (codes "a") ≡ false
unfolding same
names_differ = refl

first_matches : seven.matches (codes "\\d") (codes "7") ≡ true
unfolding same
first_matches = refl

second_fails : seven.matches (codes "\\d") (codes "x") ≡ false
unfolding same
second_fails = refl

url_by_names_panics_example :
    url_by_names seven
      (two_patterns [] (codes "a") (codes "b") (codes "\\d") (codes "\\d"))
      (codes "a" ∷ codes "7" ∷ codes "b" ∷ codes "x" ∷ [])
    ≡ panic index_range
url_by_names_panics_example =
    url_by_names_panics seven [] (codes "a") (codes "b") (codes "\\d") (codes "\\d") (codes "7")
      (codes "x") names_differ first_matches second_fails
