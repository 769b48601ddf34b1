-- ===== src/Audit/Missed.antt =====
-- The server filters by user after it has cut the rows off at the limit.
use Prim.Native.Char.{Char}
use access_control.Base.{
  ℕ, zero, suc, ◌*◌, ◌≤◌, ◌≡◌, refl, ap, ℤ, pos, negsuc, wrapped, String, Bool, false, Option, none,
  some, List, [], ◌∷◌, ◌++◌, take, keep, length, All, arith,
}
use access_control.Model.{AccessLog, AccessMethod, AccessEventType}
use access_control.Audit.Server.{
  LogQuery, clamped, given, sql_limit, skip, is_user, of_user, get_logs,
}

take-append {ℓ} : {A : Type ℓ} (n : ℕ) (xs ys : List A) → length xs ≡ n → take n (xs ++ ys) ≡ xs
take-append zero [] ys e = refl
take-append zero (x ∷ xs) ys e = absurd (omega arith)
take-append (suc n) [] ys e = absurd (omega arith)
take-append (suc n) (x ∷ xs) ys e = ap (λ zs. x ∷ zs) (take-append n xs ys (omega arith))

keep_none {ℓ} :
    {A : Type ℓ} (p : A → Bool) (xs : List A) → All (λ x. p x ≡ false) xs → keep p xs ≡ []
keep_none p [] h = refl
keep_none p (x ∷ xs) (here, h) = ground (arith, here, keep_none p xs h)

page_of_nothing : (n : ℕ) (k : ℤ) → take {A = AccessLog} n (skip k []) ≡ []
page_of_nothing zero k = refl
page_of_nothing (suc n) (pos zero) = refl
page_of_nothing (suc n) (pos (suc k)) = refl
page_of_nothing (suc n) (negsuc k) = refl

clamped-in_range : (n : ℕ) → suc n ≤ 500 → clamped (pos (suc n)) ≡ suc n
clamped-in_range n h = ground arith

wrapped-in_range : (n : ℕ) → n ≤ 500 → wrapped (n * 1) ≡ pos n
unfolding wrapped
wrapped-in_range n h = ground arith

-- The first page of a user's entries, of every door.
abbrev pub of_user_only : Option String → ℕ → LogQuery
of_user_only user n = record {
  door_id = none;
  user_id = user;
  method = none;
  event_type = none;
  limit = pos n;
  page = pos 1;
}

module _ (upper : Char → Char) (parse_method : String → Option AccessMethod)
    (parse_event_type : String → Option AccessEventType) where
  -- Where none of the newest entries, as many as the limit, is the user's, a request for the
  -- entries of the user is answered by an empty list, however many older entries of the user there
  -- are.
  pub older_entries_missed :
      (n : ℕ) (user : Option String) (u : String) (newest older : List AccessLog)
      → suc n ≤ 500
      → given user ≡ some u
      → length newest ≡ suc n
      → All (λ l. is_user upper parse_method parse_event_type u l.user_id ≡ false) newest
      → get_logs upper parse_method parse_event_type (of_user_only user (suc n)) (newest ++ older)
        ≡ []
  unfolding get_logs
  older_entries_missed n user u newest older low wanted full others =
      let cut : sql_limit (wrapped (clamped (pos (suc n)) * 1)) (newest ++ older) ≡ newest =
        rw (clamped-in_range n low, wrapped-in_range (suc n) low)
          (take-append (suc n) newest older full) in
      let nothing : of_user upper parse_method parse_event_type (given user) newest ≡ [] =
        rw wanted (
          keep_none (λ l. is_user upper parse_method parse_event_type u l.user_id) newest others) in
      rw (cut, nothing)
        (page_of_nothing (clamped (pos (suc n))) (wrapped (0 * clamped (pos (suc n)))))
