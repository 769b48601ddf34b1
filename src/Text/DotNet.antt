-- ===== src/Text/DotNet.antt =====
-- The string tests of .NET that the server uses. The upper case of a character is an argument.
use Prim.Native.Char.{Char, code}
use Prim.Native.String.{[], ◌∷◌}
use access_control.Base.{ℕ, ◌+◌, if◌then◌else◌, String, Bool, true, ◌&&◌, ◌||◌, ◌==◌, leb, nat_eq}

-- `char.IsWhiteSpace`
unfoldable pub is_white_space : Char → Bool
is_white_space c =
    let n = code c in
    (leb 9 n && leb n 13)
    || nat_eq n 32
    || nat_eq n 0x85
    || nat_eq n 0xa0
    || nat_eq n 0x1680
    || (leb 0x2000 n && leb n 0x200a)
    || nat_eq n 0x2028
    || nat_eq n 0x2029
    || nat_eq n 0x202f
    || nat_eq n 0x205f
    || nat_eq n 0x3000

-- `string.IsNullOrWhiteSpace`, of a text that is not null
unfoldable pub is_null_or_white_space : String → Bool
is_null_or_white_space [] = true
is_null_or_white_space (c ∷ s) = is_white_space c && is_null_or_white_space s

-- `string.Length`, which counts a character beyond 0xffff as two
abbrev pub length : String → ℕ
length [] = 0
length (c ∷ s) = (if leb 0x10000 (code c) then 2 else 1) + length s

unfoldable pub map_chars : (Char → Char) → String → String
map_chars f [] = []
map_chars f (c ∷ s) = f c ∷ map_chars f s

-- `string.Equals(s, t, StringComparison.OrdinalIgnoreCase)`
abbrev pub same_text : (Char → Char) → String → String → Bool
same_text upper s t = map_chars upper s == map_chars upper t
