-- ===== src/Tests/Routes.antt =====
-- The router, at a request to delete a message with the token "key".
use whatsmeow_api.Prelude.{◌≡◌, refl, String, none, []}
use whatsmeow_api.Text.{codes}
use whatsmeow_api.Errors.{ok}
use whatsmeow_api.Sqlite.Store.{bundle}
use whatsmeow_api.Config.{Config, defaults}
use whatsmeow_api.Http.Response.{no_content, problem}
use whatsmeow_api.Http.Auth.Admission.{Carries}
use whatsmeow_api.Http.Router.{delete_message_route, Around, whole, serve, handle}
use whatsmeow_api.Http.Router.Guard.{serve-guarded}
use whatsmeow_api.Tests.Samples.{engine, accepting, disk, world}

abbrev with_key : Config
with_key = record defaults { token = "key" }

abbrev around : Around (bundle engine) accepting disk
around = record {
  parse_time = λ s. none;
  types = λ extension. "";
  open_file = λ path. ok tt;
  since = λ read last limit. ok [];
  reads = 1;
  wakes = [];
  mcp = λ w. (no_content, w);
}

serve-guarded_example :
    (Carries (codes "key") (codes "BEARER  key")
      → serve around with_key "BEARER  key" (delete_message_route "m1") world
        ≡ handle around (delete_message_route "m1") world)
    × (¬ Carries (codes "key") (codes "BEARER  key")
        → (why : String) × (serve around with_key "BEARER  key" (delete_message_route "m1") world
            ≡ (whole (problem 401 "auth.unauthorized" why), world)))
serve-guarded_example =
    serve-guarded around with_key "BEARER  key" refl refl (delete_message_route "m1")
      (λ e. absurd (cc)) (λ e. absurd (cc)) world
