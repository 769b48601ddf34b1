-- ===== src/Api/Routing.antt =====
-- The client's requests under the server's routes.
use access_control.Base.{[], ◌∷◌, String, ◌≡◌, refl, some, Bool-cases, inl, inr}
use access_control.Text.{append, is_empty}
use access_control.Api.Segments.{segments, segments-id, segments-id_end, segments-id_slash}
use access_control.Api.Calls.{
  ApiCall, list_doors, list_users, get_topics, get_door, delete_door, unlock_door, lock_door,
  get_user, delete_user, get_credentials, get_policies, create_door, update_door, create_user,
  update_user, set_pin, delete_credential, save_policy, list_logs, request_of, logs_endpoint,
}
use access_control.Api.Routes.{server_routes, action_of, dispatch, HasPlainIds}

segments-logs_endpoint :
    (query : String) → segments (logs_endpoint query) ≡ "" ∷ "api" ∷ "logs" ∷ []
unfolding segments
segments-logs_endpoint query = elim (Bool-cases (is_empty query)) [
  | inl blank ↦ rw blank
  | inr given ↦ rw given
]

-- Each call of the client, its ids being plain (letters, digits, `-` and `_`, not empty), makes a
-- request whose method and path the server's routes take to the action that the call means, and
-- the action gets the call's ids.
pub dispatch-request_of :
    (call : ApiCall)
    → HasPlainIds call
    → dispatch server_routes (request_of call).method (segments (request_of call).endpoint)
      ≡ some (action_of call)
unfolding request_of segments dispatch
dispatch-request_of list_doors h = refl
dispatch-request_of (get_door id) ((some_id, plain), _) = rw (segments-id_end id plain, some_id)
dispatch-request_of (create_door draft) h = refl
dispatch-request_of (update_door id draft) ((some_id, plain), _) =
    rw (segments-id_end id plain, some_id)
dispatch-request_of (delete_door id) ((some_id, plain), _) = rw (segments-id_end id plain, some_id)
dispatch-request_of (unlock_door id) ((some_id, plain), _) =
    rw (segments-id_slash id "unlock" plain, some_id)
dispatch-request_of (lock_door id) ((some_id, plain), _) =
    rw (segments-id_slash id "lock" plain, some_id)
dispatch-request_of list_users h = refl
dispatch-request_of (get_user id) ((some_id, plain), _) = rw (segments-id_end id plain, some_id)
dispatch-request_of (create_user draft) h = refl
dispatch-request_of (update_user id draft) ((some_id, plain), _) =
    rw (segments-id_end id plain, some_id)
dispatch-request_of (delete_user id) ((some_id, plain), _) = rw (segments-id_end id plain, some_id)
dispatch-request_of (get_credentials id) ((some_id, plain), _) =
    rw (segments-id_slash id "credentials" plain, some_id)
dispatch-request_of (set_pin id pin label) ((some_id, plain), _) =
    rw (segments-id_slash id "credentials/pin" plain, some_id)
dispatch-request_of (delete_credential id credential)
      ((some_id, plain), ((some_cred, plain_cred), _)) =
    rw (
      segments-id_slash id (append "credentials/" credential) plain,
      some_id,
      segments-id credential plain_cred,
      some_cred,
    )
dispatch-request_of (get_policies id) ((some_id, plain), _) =
    rw (segments-id_slash id "policies" plain, some_id)
dispatch-request_of (save_policy id draft) ((some_id, plain), _) =
    rw (segments-id_slash id "policies" plain, some_id)
dispatch-request_of (list_logs filter) h = rw segments-logs_endpoint
dispatch-request_of get_topics h = refl
