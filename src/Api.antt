-- ===== src/Api.antt =====
-- The API client, src/CodeMaster.UI/src/api/apiClient.ts: where the page is served from, the
-- request that each call makes, and what becomes of the answer.
pub mod BasePath
pub mod Calls
pub mod Segments
pub mod Routes
pub mod Routing
use Prim.Native.Char.{code}
use Prim.Native.String.{[], ◌∷◌}
use access_control.Base.{
  ℕ, ℤ, pos, negsuc, zero, suc, String, Bool, true, false, Option, none, some, Outcome, ok, err,
  leb, ltb, nat_eq, not, is_truthy, or_else, given_or, if◌then◌else◌, ◌&&◌, List, ◌++◌,
}
use access_control.Text.{append, is_empty, is_slash, strip_slashes, trim, show}

-- What the browser page offers: `window.__CODEMASTER_BASE_PATH__`, and the element
-- `meta[name="base-path"]` with its `content` attribute.
pub record Page : Type 0 where
  pub base_path_global : Option String
  pub base_path_meta : Option (Option String)

-- `content && content.trim().length > 0`, and what is returned then.
unfoldable pub meta_base_path : Option (Option String) → String
meta_base_path none = ""
meta_base_path (some none) = ""
meta_base_path (some (some content)) =
    if is_truthy (some content) && not (is_empty (trim content))
    then strip_slashes (trim content)
    else ""

-- `none` where there is no `window`.
unfoldable pub get_base_path : Option Page → String
unfolding meta_base_path
get_base_path none = ""
get_base_path (some page) =
    if is_truthy page.base_path_global
    then strip_slashes (given_or page.base_path_global "")
    else meta_base_path page.base_path_meta

-- `endpoint.startsWith('/') ? endpoint : `/${endpoint}``
abbrev pub clean_endpoint : String → String
clean_endpoint [] = "/"
clean_endpoint (c ∷ s) = if is_slash c then c ∷ s else append "/" (c ∷ s)

unfoldable pub build_url : Option Page → String → String
unfolding get_base_path
build_url page endpoint = append (get_base_path page) (clean_endpoint endpoint)

-- What `fetch` gives: it rejects, or it answers. `text` is `none` where reading the body fails, and
-- `json` is the outcome of reading it as a value of the type that the caller expects.
pub record Response {ℓ} (A : Type ℓ) : Type ℓ where
  pub status : ℕ
  pub status_text : String
  pub text : Option String
  pub json : Outcome A

pub data Fetched {ℓ} (A : Type ℓ) : Type ℓ where
  rejected : Option String → Fetched A
  responded : Response A → Fetched A

-- `response.ok`
abbrev pub is_ok : ℕ → Bool
is_ok status = leb 200 status && leb status 299

abbrev pub text_or_empty : Option String → String
text_or_empty none = ""
text_or_empty (some text) = text

-- The message of the error that `request` throws.
unfoldable pub api_error : ℕ → String → Option String → String
api_error status status_text text =
    append "API Error ["
      (append (show status) (append "] " (append status_text (append ": " (text_or_empty text)))))

-- The second half of `request`; `empty` is what `{} as T` is to the caller.
unfoldable pub request {ℓ} : {A : Type ℓ} → A → Fetched A → Outcome A
unfolding api_error
request empty (rejected e) = err e
request empty (responded r) =
    if not (is_ok r.status)
    then err (some (api_error r.status r.status_text r.text))
    else if nat_eq r.status 204
    then ok empty
    else r.json
