-- ===== src/Tests/Client.antt =====
-- Examples of the API client.
use access_control.Base.{◌≡◌, refl, Option, none, some, [], ◌∷◌, Outcome, err}
use access_control.Text.{drop_end, drop_start, trim, is_space, strip_slashes, show}
use access_control.Api.{Page, get_base_path, meta_base_path, request, responded, api_error}
use access_control.Settings.{settings_view}
use access_control.Api.Calls.{request_of, delete_credential}
use access_control.Api.Segments.{segments}
use access_control.Api.Routes.{server_routes, dispatch, users_delete_credential}
use access_control.Api.Routing.{dispatch-request_of}

dispatch-request_of_example :
    dispatch server_routes
      (request_of (delete_credential "u1" "c-2")).method
      (segments (request_of (delete_credential "u1" "c-2")).endpoint)
    ≡ some (users_delete_credential, "u1" ∷ "c-2" ∷ [])
dispatch-request_of_example =
    dispatch-request_of (delete_credential "u1" "c-2")
      ((refl, (refl, (refl, tt))), ((refl, (refl, (refl, (refl, tt)))), tt))

abbrev ingress : Option Page
ingress = some (record { base_path_global = none; base_path_meta = some (some " /api/ingress// ") })

ingress_path : get_base_path ingress ≡ "/api/ingress"
unfolding get_base_path meta_base_path trim strip_slashes drop_end drop_start is_space
ingress_path = refl

-- What an error of the server becomes.
abbrev failed : Outcome (Unit {0})
failed = request tt (
    responded (record {
      status = 404;
      status_text = "Not Found";
      text = some "no such door";
      json = err none;
    }))

error_text : failed ≡ err (some "API Error [404] Not Found: no such door")
unfolding request api_error show
error_text = refl

direct_root : (settings_view none none).base_path ≡ "/ (Direct root)"
unfolding settings_view get_base_path
direct_root = refl
