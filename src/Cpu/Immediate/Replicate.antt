-- ===== src/Cpu/Immediate/Replicate.antt =====
-- The loop of `bitfield_replicate` of src/cpu.cc: the fuel that `decode_bit_masks` gives is enough.
use aarch64_emu.Base.{
  ℕ, zero, suc, ◌+◌, ◌*◌, ◌^◌, ◌≤◌, ◌<◌, ◌≡◌, refl, sym, ap, ◌∙◌, arith, bit_or, ◌<<<◌, u8, inl,
  inr, ltb, Bool-cases,
}
use native.Mathlib.Nat.{pow-suc}
use aarch64_emu.Cpu.Immediate.{bitfield_replicate}

-- The loop is at its end: the period has reached the word.
abbrev pub HasEnded : ℕ × ℕ → Type 0
HasEnded state = 64 ≤ state.1

doubled_period : (fuel e : ℕ) → 64 ≤ e * 2 ^ suc fuel → e < 64 → 64 ≤ u8 (e * 2) * 2 ^ fuel
doubled_period fuel e h lt =
    let e' : u8 (e * 2) ≡ e * 2 = omega arith in
    rw e' (omega (arith, ap (λ (t : ℕ). e * t) (pow-suc 2 fuel)))

next_round :
    (fuel pattern e : ℕ)
    → e < 64
    → bitfield_replicate (suc fuel) pattern e
      ≡ bitfield_replicate fuel (bit_or pattern (pattern <<< e)) (u8 (e * 2))
unfolding bitfield_replicate
next_round fuel pattern e more = ground arith

last_round : (fuel pattern e : ℕ) → 64 ≤ e → bitfield_replicate fuel pattern e ≡ (pattern, e)
unfolding bitfield_replicate
last_round zero pattern e over = refl
last_round (suc fuel) pattern e over = ground arith

last_round_zero : (pattern e : ℕ) → bitfield_replicate 0 pattern e ≡ (pattern, e)
unfolding bitfield_replicate
last_round_zero pattern e = refl

ends :
    (fuel pattern e : ℕ)
    → 64 ≤ e * 2 ^ fuel
    → e < 128
    → HasEnded (bitfield_replicate fuel pattern e)
ends zero pattern e h lt = rw (last_round_zero pattern e) (omega arith)
ends (suc fuel) pattern e h lt = elim (Bool-cases (ltb e 64)) [
  | inl more ↦
      let lt' : e < 64 = ground arith in
      rw (next_round fuel pattern e lt') (
        ends fuel (bit_or pattern (pattern <<< e)) (u8 (e * 2)) (doubled_period fuel e h lt')
          (omega arith))
  | inr over ↦ let le : 64 ≤ e = ground arith in rw (last_round (suc fuel) pattern e le) le
]

more_fuel :
    (fuel extra pattern e : ℕ)
    → HasEnded (bitfield_replicate fuel pattern e)
    → bitfield_replicate (fuel + extra) pattern e ≡ bitfield_replicate fuel pattern e
more_fuel zero extra pattern e h =
    let le : 64 ≤ e = rw (last_round_zero pattern e) at h in
    last_round (zero + extra) pattern e le ∙ sym (last_round_zero pattern e)
more_fuel (suc fuel) extra pattern e h = elim (Bool-cases (ltb e 64)) [
  | inl more ↦
      let lt : e < 64 = ground arith in
      let step = next_round fuel pattern e lt in
      let counted : suc fuel + extra ≡ suc (fuel + extra) = omega arith in
      let h' = rw step at h in
      rw (counted, next_round (fuel + extra) pattern e lt, step)
        (more_fuel fuel extra (bit_or pattern (pattern <<< e)) (u8 (e * 2)) h')
  | inr over ↦
      let le : 64 ≤ e = ground arith in
      last_round (suc fuel + extra) pattern e le ∙ sym (last_round (suc fuel) pattern e le)
]

-- From any period from 1 to 127, the loop of `bitfield_replicate` ends within 7 rounds, with a period of
-- at least 64, and more fuel than 7 gives the same result.
pub replicate_ends :
    (extra pattern e : ℕ)
    → 1 ≤ e
    → e < 128
    → (64 ≤ (bitfield_replicate 7 pattern e).1)
      × (bitfield_replicate (7 + extra) pattern e ≡ bitfield_replicate 7 pattern e)
replicate_ends extra pattern e positive small =
    let ended = ends 7 pattern e (omega arith) small in (ended, more_fuel 7 extra pattern e ended)
