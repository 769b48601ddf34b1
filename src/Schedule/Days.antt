-- ===== src/Schedule/Days.antt =====
-- The days of the week as bits of a mask below 128; day i, from Monday as 0, is the bit 2 ^ i.
use access_control.Base.{
  ℕ, zero, suc, ◌^◌, ◌<◌, ◌≡◌, refl, Bool, true, false, not, ◌&&◌, arith, nat_eq, nat_eq_iff, ltb,
  leb, if◌then◌else◌,
}
use access_control.Model.{PolicyDraft}
use access_control.Schedule.{
  is_active, toggle_bit, Preset, all, weekdays, weekends, preset_mask, select_preset, days_of_week,
}

-- The test passes on 0, 1 and so on, for as many numbers as are given.
passes_for : (ℕ → Bool) → ℕ → Bool
passes_for test zero = true
passes_for test (suc bound) = let others = passes_for test bound in others && test bound

passes_at :
    (test : ℕ → Bool) (bound i : ℕ) → i < bound → passes_for test bound ≡ true → test i ≡ true
unfolding passes_for
passes_at test zero i small passed = absurd (omega arith)
passes_at test (suc bound) i small passed = ground (passes_at test bound i, arith)

abbrev same : Bool → Bool → Bool
same true b = b
same false b = not b

same_eq : (a b : Bool) → same a b ≡ true → a ≡ b
same_eq true b h = ground arith
same_eq false b h = ground arith

-- What pressing day i does to day j of a mask, and that it keeps the mask in range.
abbrev toggle_ok : ℕ → ℕ → ℕ → Bool
toggle_ok i j mask =
    same (is_active (toggle_bit mask (2 ^ i)) (2 ^ j))
      (if nat_eq i j then not (is_active mask (2 ^ j)) else is_active mask (2 ^ j))
    && ltb (toggle_bit mask (2 ^ i)) 128
    && nat_eq (toggle_bit (toggle_bit mask (2 ^ i)) (2 ^ i)) mask

toggle_table : passes_for (λ i. passes_for (λ j. passes_for (toggle_ok i j) 128) 7) 7 ≡ true
unfolding passes_for toggle_bit
toggle_table = refl

toggle_at : (i j mask : ℕ) → i < 7 → j < 7 → mask < 128 → toggle_ok i j mask ≡ true
toggle_at i j mask hi hj hm = passes_at (toggle_ok i j) 128 mask hm (
    passes_at (λ j. passes_for (toggle_ok i j) 128) 7 j hj
      (passes_at (λ i. passes_for (λ j. passes_for (toggle_ok i j) 128) 7) 7 i hi toggle_table))

and_parts : (a b c : Bool) → (a && b && c) ≡ true → (a ≡ true) × (b ≡ true) × (c ≡ true)
and_parts a b c h = ground arith

-- On a mask below 128, pressing day i, of seven, turns that day over and leaves every other day;
-- the mask stays below 128, and pressing the day again gives the first mask back.
pub toggle_bit_lem :
    (i j mask : ℕ)
    → i < 7
    → j < 7
    → mask < 128
    → (is_active (toggle_bit mask (2 ^ i)) (2 ^ j)
        ≡ (if nat_eq i j then not (is_active mask (2 ^ j)) else is_active mask (2 ^ j)))
      × (toggle_bit mask (2 ^ i) < 128)
      × (toggle_bit (toggle_bit mask (2 ^ i)) (2 ^ i) ≡ mask)
toggle_bit_lem i j mask hi hj hm =
    let (turned, low, back) = and_parts _ _ _ (toggle_at i j mask hi hj hm) in
    (
      same_eq (is_active (toggle_bit mask (2 ^ i)) (2 ^ j))
          (if nat_eq i j then not (is_active mask (2 ^ j)) else is_active mask (2 ^ j)) turned,
      ground arith,
      (nat_eq_iff (toggle_bit (toggle_bit mask (2 ^ i)) (2 ^ i)) mask).0 back,
    )

-- The days that a preset is meant to hold.
abbrev pub in_preset : Preset → ℕ → Bool
in_preset all i = true
in_preset weekdays i = ltb i 5
in_preset weekends i = leb 5 i

preset_ok :
    (preset : Preset)
    → passes_for (λ i. same (is_active (preset_mask preset) (2 ^ i)) (in_preset preset i)) 7 ≡ true
unfolding passes_for preset_mask
preset_ok all = refl
preset_ok weekdays = refl
preset_ok weekends = refl

-- Whatever the policy was, a preset makes exactly its days active: all, Monday to Friday, or
-- Saturday and Sunday.
select_preset_lem :
    (preset : Preset) (p : PolicyDraft) (i : ℕ)
    → i < 7
    → is_active (days_of_week (select_preset preset p)) (2 ^ i) ≡ in_preset preset i
unfolding select_preset
select_preset_lem preset p i h =
    same_eq (is_active (preset_mask preset) (2 ^ i)) (in_preset preset i) (
      passes_at (λ i. same (is_active (preset_mask preset) (2 ^ i)) (in_preset preset i)) 7 i h
        (preset_ok preset))
