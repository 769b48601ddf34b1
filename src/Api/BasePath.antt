-- ===== src/Api/BasePath.antt =====
-- Laws of the base path and of the URLs built on it.
use Prim.Native.Char.{Char}
use Prim.Native.String.{[], ◌∷◌}
use access_control.Base.{
  ℕ, zero, suc, String, ◌≡◌, refl, ◌≢◌, Option, none, some, false, is_truthy, given_or, Bool-cases,
  inl, inr, ◌&&◌, not,
}
use access_control.Text.{append, last_code, is_slash, is_empty, strip_slashes, trim}
use access_control.Text.Trim.{AllChars, drop_end-append, last_code-strip_slashes}
use access_control.Api.{Page, meta_base_path, get_base_path, build_url}

last_code-meta_base_path :
    (meta : Option (Option String)) → last_code (meta_base_path meta) ≢ some b'/'
unfolding meta_base_path
last_code-meta_base_path none = λ e. cc
last_code-meta_base_path (some none) = λ e. cc
last_code-meta_base_path (some (some content)) =
    elim (Bool-cases (is_truthy (some content) && not (is_empty (trim content)))) [
      | inl given ↦ rw given (last_code-strip_slashes (trim content))
      | inr blank ↦ rw blank (λ e. cc)
    ]

-- Whatever the page says, the base path does not end in a slash.
last_code-get_base_path : (page : Option Page) → last_code (get_base_path page) ≢ some b'/'
unfolding get_base_path
last_code-get_base_path none = λ e. cc
last_code-get_base_path (some page) = elim (Bool-cases (is_truthy page.base_path_global)) [
  | inl given ↦ rw given (last_code-strip_slashes (given_or page.base_path_global ""))
  | inr missing ↦ rw missing (last_code-meta_base_path page.base_path_meta)
]

abbrev pub slashes : ℕ → String
slashes zero = ""
slashes (suc n) = "/" ∷ slashes n

slashes-AllChars : (n : ℕ) → AllChars is_slash (slashes n)
slashes-AllChars zero = tt
slashes-AllChars (suc n) = (refl, slashes-AllChars n)

-- A base path set on the window may have any number of slashes at its end, and an endpoint may be
-- written with its slash or without: the URL is the same.
build_url-slashes :
    (n : ℕ) (base endpoint : String) (meta : Option (Option String)) (c : Char)
    → base ≢ ""
    → is_slash c ≡ false
    → build_url
        (some (record { base_path_global = some (append base (slashes n)); base_path_meta = meta }))
        (append "/" (c ∷ endpoint))
      ≡ build_url
          (some (record { base_path_global = some base; base_path_meta = meta }))
          (c ∷ endpoint)
unfolding build_url strip_slashes
build_url-slashes n [] endpoint meta c some_base plain = absurd (some_base refl)
build_url-slashes n (b ∷ base) endpoint meta c some_base plain =
    rw (plain, drop_end-append is_slash (b ∷ base) (slashes n) (slashes-AllChars n))
