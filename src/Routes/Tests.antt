-- ===== src/Routes/Tests.antt =====
-- The routes with handlers that answer nothing.
use syncent.Base.{true, All}
use syncent.Http.{respond_json}
use syncent.Middleware.{Handler}
use syncent.Routes.{Endpoint, routes}
use syncent.Routes.Guards.{Guarded, routes-Guarded}
use syncent.Sample.{sample, config}
use mathlib.Core.List.{[]}

abbrev answer_nothing : Endpoint → Handler
answer_nothing e r db = (db, respond_json 200 [])

routes-Guarded_example : All (Guarded sample config answer_nothing) (routes true)
routes-Guarded_example = routes-Guarded sample config answer_nothing true
