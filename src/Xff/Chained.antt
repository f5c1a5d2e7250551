-- ===== src/Xff/Chained.antt =====
-- The middleware of xff.go in front of handlers that do not call `Next`.
use wx.Common.{Bool, true, false, some, List, ◌∷◌, map, length, ◌≡◌, if◌then◌else◌}
use wx.Routing.Chain.{Handler, go_on, perform, serve, run_next, loop, return, next, update}
use wx.Routing.Chain.Pipeline.{Verdict, simple, pipeline, result}
use wx.Routing.Chain.Around.{again_of, around_nothing}
use wx.Routing.Request.{HandlerError, unknown, Ctx}
use wx.Xff.{xff}

-- The chain of the middleware and handlers that do not call `Next` ends as these handlers do, on a
-- context that says that nothing is known of the sender yet, unless it is skipped.
pub xff-pipeline :
    {H V : Type 0} (skip : Ctx H V → Bool) (fs : List (Ctx H V → Ctx H V × Verdict HandlerError))
    (c : Ctx H V)
    → result (serve (xff skip ∷ map simple fs) c)
      ≡ some (pipeline fs (if skip c then c else record c { xff_info = some unknown }))
unfolding serve run_next loop perform xff
xff-pipeline {H = H} {V = V} skip fs c = branch (xff skip) (skip c)
  where
    branch :
        (h : Handler (Ctx H V) HandlerError) (b : Bool)
        → result (
            go_on (again_of (length (h ∷ map simple fs)) (h ∷ map simple fs)) (
              perform
                (again_of (length (h ∷ map simple fs)) (h ∷ map simple fs))
                (length (h ∷ map simple fs))
                (if b
                  then next (λ e. return e)
                  else update (λ d. record d { xff_info = some unknown }) (next (λ e. return e)))
                (record { position = 1; state = c })))
          ≡ some (pipeline fs (if b then c else record c { xff_info = some unknown }))
    branch h true = around_nothing h fs c
    branch h false = around_nothing h fs (record c { xff_info = some unknown })
