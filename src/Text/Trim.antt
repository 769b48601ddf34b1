-- ===== src/Text/Trim.antt =====
-- Laws of what is dropped at the ends of a text.
use Prim.Native.Char.{Char, code}
use Prim.Native.String.{[], ◌∷◌}
use access_control.Base.{
  String, ◌≡◌, refl, ◌≢◌, Bool, true, false, some, ◌&&◌, if◌then◌else◌, Bool-cases, inl, inr,
  nat_eq_iff,
}
use access_control.Text.{
  append, is_empty, last_code, is_slash, is_space, drop_end, drop_start, trim, strip_slashes,
}

-- Every character passes the test.
abbrev pub AllChars : (Char → Bool) → String → Type 0
AllChars p [] = Unit
AllChars p (c ∷ s) = (p c ≡ true) × AllChars p s

drop_end_all : (p : Char → Bool) (s : String) → AllChars p s → drop_end p s ≡ ""
unfolding drop_end
drop_end_all p [] h = refl
drop_end_all p (c ∷ s) (here, h) = rw (here, drop_end_all p s h)

pub drop_end-append :
    (p : Char → Bool) (s t : String) → AllChars p t → drop_end p (append s t) ≡ drop_end p s
unfolding drop_end
drop_end-append p [] t h = drop_end_all p t h
drop_end-append p (c ∷ s) t h = rw (drop_end-append p s t h)

last_code-kept :
    (c : Char) (rest : String)
    → last_code rest ≢ some b'/'
    → last_code (if is_slash c && is_empty rest then [] else c ∷ rest) ≢ some b'/'
last_code-kept c [] h = elim (Bool-cases (is_slash c)) [
  | inl slash ↦ rw slash (λ e. cc)
  | inr other ↦
      rw other (λ e. let same : code c ≡ b'/' = cc in cc ((nat_eq_iff (code c) b'/').1 same))
]
last_code-kept c (d ∷ s) h = elim (Bool-cases (is_slash c)) [
  | inl slash ↦ rw slash h
  | inr other ↦ rw other h
]

-- Nothing stripped of its slashes ends in one.
pub last_code-strip_slashes : (s : String) → last_code (strip_slashes s) ≢ some b'/'
unfolding strip_slashes
last_code-strip_slashes [] = λ e. cc
last_code-strip_slashes (c ∷ s) = last_code-kept c (drop_end is_slash s) (last_code-strip_slashes s)

-- No character passes the test.
abbrev pub NoChars : (Char → Bool) → String → Type 0
NoChars p [] = Unit
NoChars p (c ∷ s) = (p c ≡ false) × NoChars p s

drop_end_none : (p : Char → Bool) (s : String) → NoChars p s → drop_end p s ≡ s
unfolding drop_end
drop_end_none p [] h = refl
drop_end_none p (c ∷ s) (here, h) = rw (here, drop_end_none p s h)

drop_start_none : (p : Char → Bool) (s : String) → NoChars p s → drop_start p s ≡ s
unfolding drop_start
drop_start_none p [] h = refl
drop_start_none p (c ∷ s) (here, h) = rw here

pub trim_none : (s : String) → NoChars is_space s → trim s ≡ s
unfolding trim
trim_none s h = rw (drop_start_none is_space s h) (drop_end_none is_space s h)
