-- ===== src/Api/Calls.antt =====
-- The object `apiClient`: the request that each of its methods makes.
use Prim.Native.Char.{Char, code}
use Prim.Native.String.{[], ◌∷◌}
use access_control.Base.{
  ℕ, zero, suc, ℤ, pos, negsuc, ◌+◌, ◌-◌, ◌/◌, ◌%◌, ◌≡◌, refl, String, Bool, ◌&&◌, ◌||◌, Option,
  none, some, List, ◌++◌, is_truthy, given_or, if◌then◌else◌, leb, ltb, nat_eq,
}
use access_control.Model.{DoorDraft, UserDraft, PolicyDraft, AuditFilter}
use access_control.Text.{append, is_empty, show, digit_char}

pub data Method : Type 0 where
  get post put delete : Method

-- What `JSON.stringify` is given.
pub data Body : Type 0 where
  no_body : Body
  door_body : DoorDraft → Body
  user_body : UserDraft → Body
  pin_body : String → String → Body
  policy_body : PolicyDraft → Body

pub record HttpRequest : Type 0 where
  pub method : Method
  pub endpoint : String
  pub headers : List (String × String)
  pub body : Body

-- The methods of `apiClient`, each with its arguments.
pub data ApiCall : Type 0 where
  list_doors list_users get_topics : ApiCall
  get_door delete_door unlock_door lock_door get_user delete_user get_credentials get_policies :
      String → ApiCall
  create_door : DoorDraft → ApiCall
  update_door : String → DoorDraft → ApiCall
  create_user : UserDraft → ApiCall
  update_user : String → UserDraft → ApiCall
  set_pin : String → String → Option String → ApiCall
  delete_credential : String → String → ApiCall
  save_policy : String → PolicyDraft → ApiCall
  list_logs : AuditFilter → ApiCall

-- The headers that `request` puts in front; no caller gives others.
abbrev json_headers : List (String × String)
json_headers =
    List.◌∷◌ ("Content-Type", "application/json") (List.◌∷◌ ("Accept", "application/json") List.[])

abbrev send : Method → String → Body → HttpRequest
send method endpoint body = record {
  method = method;
  endpoint = endpoint;
  headers = json_headers;
  body = body;
}

-- `n.toString()`
abbrev pub show_ℤ : ℤ → String
show_ℤ (pos n) = show n
show_ℤ (negsuc n) = append "-" (show (suc n))

-- Characters that a form-encoded text keeps: letters, digits and `* - . _`.
abbrev pub is_form_safe : Char → Bool
is_form_safe c =
    let n = code c in
    (leb b'0' n && leb n b'9')
    || (leb b'a' n && leb n b'z')
    || (leb b'A' n && leb n b'Z')
    || nat_eq n b'*'
    || nat_eq n b'-'
    || nat_eq n b'.'
    || nat_eq n b'_'

abbrev hex_letter : ℕ → Char
hex_letter zero = "A"
hex_letter (suc zero) = "B"
hex_letter (suc (suc zero)) = "C"
hex_letter (suc (suc (suc zero))) = "D"
hex_letter (suc (suc (suc (suc zero)))) = "E"
hex_letter (suc (suc (suc (suc (suc n))))) = "F"

abbrev hex_char : ℕ → Char
hex_char n = if ltb n 10 then digit_char n else hex_letter (n - 10)

-- `%` and the two hexadecimal digits of a byte
abbrev percent : ℕ → String → String
percent byte tail = "%" ∷ hex_char (byte / 16) ∷ hex_char (byte % 16) ∷ tail

-- The bytes of a code point in UTF-8, percent-encoded before a text.
abbrev percent_utf8 : ℕ → String → String
percent_utf8 n tail =
    if ltb n 0x80
    then percent n tail
    else if ltb n 0x800
    then percent (0xc0 + n / 64) (percent (0x80 + n % 64) tail)
    else if ltb n 0x10000
    then percent (0xe0 + n / 4096) (percent (0x80 + n / 64 % 64) (percent (0x80 + n % 64) tail))
    else percent (0xf0 + n / 262144) (
        percent (0x80 + n / 4096 % 64)
          (percent (0x80 + n / 64 % 64) (percent (0x80 + n % 64) tail)))

-- How `URLSearchParams` writes a name or a value.
unfoldable pub form_encode : String → String
form_encode [] = ""
form_encode (c ∷ s) =
    let rest = form_encode s in
    if is_form_safe c
    then c ∷ rest
    else if nat_eq (code c) 32
    then "+" ∷ rest
    else percent_utf8 (code c) rest

-- `if (value) params.append(name, value)`
abbrev pub param : String → Option String → List (String × String)
param name value = if is_truthy value then List.◌∷◌ (name, given_or value "") List.[] else List.[]

-- `if (filter?.limit) params.append('limit', filter.limit.toString())`
abbrev pub limit_param : Option ℤ → List (String × String)
limit_param none = List.[]
limit_param (some (pos zero)) = List.[]
limit_param (some (pos (suc n))) = List.◌∷◌ ("limit", show_ℤ (pos (suc n))) List.[]
limit_param (some (negsuc n)) = List.◌∷◌ ("limit", show_ℤ (negsuc n)) List.[]

unfoldable pub log_params : AuditFilter → List (String × String)
log_params filter =
    param "doorId" filter.door_id
    ++ (param "userId" filter.user_id ++ (param "method" filter.method ++ limit_param filter.limit))

-- `params.toString()`
unfoldable pub params_text : List (String × String) → String
unfolding form_encode
params_text List.[] = ""
params_text (List.◌∷◌ (name, value) List.[]) =
    append (form_encode name) (append "=" (form_encode value))
params_text (List.◌∷◌ (name, value) (List.◌∷◌ p ps)) =
    let rest = params_text (List.◌∷◌ p ps) in
    append (form_encode name) (append "=" (append (form_encode value) (append "&" rest)))

-- `/api/logs${query ? `?${query}` : ''}`
abbrev pub logs_endpoint : String → String
logs_endpoint query = append "/api/logs" (if is_empty query then "" else append "?" query)

abbrev door_endpoint : String → String → String
door_endpoint id rest = append "/api/doors/" (append id rest)

abbrev user_endpoint : String → String → String
user_endpoint id rest = append "/api/users/" (append id rest)

unfoldable pub request_of : ApiCall → HttpRequest
unfolding log_params params_text
request_of list_doors = send get "/api/doors" no_body
request_of (get_door id) = send get (door_endpoint id "") no_body
request_of (create_door draft) = send post "/api/doors" (door_body draft)
request_of (update_door id draft) = send put (door_endpoint id "") (door_body draft)
request_of (delete_door id) = send delete (door_endpoint id "") no_body
request_of (unlock_door id) = send post (door_endpoint id "/unlock") no_body
request_of (lock_door id) = send post (door_endpoint id "/lock") no_body
request_of list_users = send get "/api/users" no_body
request_of (get_user id) = send get (user_endpoint id "") no_body
request_of (create_user draft) = send post "/api/users" (user_body draft)
request_of (update_user id draft) = send put (user_endpoint id "") (user_body draft)
request_of (delete_user id) = send delete (user_endpoint id "") no_body
request_of (get_credentials id) = send get (user_endpoint id "/credentials") no_body
request_of (set_pin id pin label) =
    send post (user_endpoint id "/credentials/pin") (pin_body pin (given_or label "PIN"))
request_of (delete_credential id credential) =
    send delete (user_endpoint id (append "/credentials/" credential)) no_body
request_of (get_policies id) = send get (user_endpoint id "/policies") no_body
request_of (save_policy id draft) = send post (user_endpoint id "/policies") (policy_body draft)
request_of (list_logs filter) = send get (logs_endpoint (params_text (log_params filter))) no_body
request_of get_topics = send get "/api/discovery" no_body

encode_test : form_encode "a b/é" ≡ "a+b%2F%C3%A9"
unfolding form_encode
encode_test = refl
