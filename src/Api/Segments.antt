-- ===== src/Api/Segments.antt =====
-- The path of a request as the server reads it.
use Prim.Native.Char.{Char, code}
use Prim.Native.String.{[], ◌∷◌}
use access_control.Base.{
  String, ◌≡◌, refl, Bool, true, false, ◌&&◌, ◌||◌, List, if◌then◌else◌, nat_eq, leb, arith,
}
use access_control.Text.{append, is_empty, is_slash}
use access_control.Text.Trim.{AllChars}

-- A character put before the first segment.
abbrev put_first : Char → List String → List String
put_first c List.[] = List.◌∷◌ (c ∷ "") List.[]
put_first c (List.◌∷◌ s rest) = List.◌∷◌ (c ∷ s) rest

-- The segments of a path, up to its query.
unfoldable pub segments : String → List String
segments [] = List.◌∷◌ "" List.[]
segments (c ∷ s) =
    let rest = segments s in
    if nat_eq (code c) b'?'
    then List.◌∷◌ "" List.[]
    else if is_slash c
    then List.◌∷◌ "" rest
    else put_first c rest

-- Ids that a path can hold as they are: letters, digits, `-` and `_`, at least one.
abbrev is_id_char : Char → Bool
is_id_char c =
    let n = code c in
    (leb b'0' n && leb n b'9')
    || (leb b'a' n && leb n b'z')
    || (leb b'A' n && leb n b'Z')
    || nat_eq n b'-'
    || nat_eq n b'_'

abbrev pub IsPlainId : String → Type 0
IsPlainId id = (is_empty id ≡ false) × AllChars is_id_char id

plain_char :
    (c : Char) → is_id_char c ≡ true → (nat_eq (code c) b'?' ≡ false) × (is_slash c ≡ false)
plain_char c h = ground arith

pub segments-id : (id : String) → AllChars is_id_char id → segments id ≡ List.◌∷◌ id List.[]
unfolding segments
segments-id [] h = refl
segments-id (c ∷ id) (here, h) =
    let (query, slash) = plain_char c here in rw (query, slash, segments-id id h)

pub segments-id_end :
    (id : String) → AllChars is_id_char id → segments (append id "") ≡ List.◌∷◌ id List.[]
unfolding segments
segments-id_end [] h = refl
segments-id_end (c ∷ id) (here, h) =
    let (query, slash) = plain_char c here in rw (query, slash, segments-id_end id h)

pub segments-id_slash :
    (id t : String)
    → AllChars is_id_char id
    → segments (append id ("/" ∷ t)) ≡ List.◌∷◌ id (segments t)
unfolding segments
segments-id_slash [] t h = refl
segments-id_slash (c ∷ id) t (here, h) =
    let (query, slash) = plain_char c here in rw (query, slash, segments-id_slash id t h)
