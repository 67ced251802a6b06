-- ===== src/Http2/Frame/Headers/Flags.antt =====
-- What a reader can tell from the flags byte of a HEADERS frame.
use proxy_rs.Prelude.{
  ◌*◌, ◌/◌, ℕ, ◌+◌, ◌%◌, ◌≡◌, refl, not, Option, none, some, bit_and, ◌==◌, arith,
}
use native.Mathlib.Decide.{dec_lt}
use proxy_rs.Prelude.Bits.{bit_and_step, bit_and-zero}
use proxy_rs.Http2.Frame.Headers.{
  Priority, end_flags, flags_padded, flags_priority, pad_flags, priority_flags,
}
use proxy_rs.Http2.Frame.Headers.Wire.{is_some}

-- What the flags of a frame say, for each value of the two end flags.
pub record SaysFlags (pad : Option ℕ) (priority : Option Priority) (x : ℕ) : Type 0 where
  pub padded :
      not (bit_and (priority_flags priority (pad_flags pad x)) flags_padded == 0) ≡ is_some pad
  pub prioritised :
      not (bit_and (priority_flags priority (pad_flags pad x)) flags_priority == 0)
      ≡ is_some priority
  pub ends : bit_and (priority_flags priority (pad_flags pad x)) end_flags ≡ x

flags_0 : (pad : Option ℕ) (priority : Option Priority) → SaysFlags pad priority 0
flags_0 none none = record { padded = refl; prioritised = refl; ends = refl }
flags_0 (some pad) none = record { padded = refl; prioritised = refl; ends = refl }
flags_0 _ _ = record { padded = refl; prioritised = refl; ends = refl }

flags_1 : (pad : Option ℕ) (priority : Option Priority) → SaysFlags pad priority 1
flags_1 none none = record { padded = refl; prioritised = refl; ends = refl }
flags_1 (some pad) none = record { padded = refl; prioritised = refl; ends = refl }
flags_1 _ _ = record { padded = refl; prioritised = refl; ends = refl }

flags_4 : (pad : Option ℕ) (priority : Option Priority) → SaysFlags pad priority 4
flags_4 none none = record { padded = refl; prioritised = refl; ends = refl }
flags_4 (some pad) none = record { padded = refl; prioritised = refl; ends = refl }
flags_4 _ _ = record { padded = refl; prioritised = refl; ends = refl }

flags_5 : (pad : Option ℕ) (priority : Option Priority) → SaysFlags pad priority 5
flags_5 none none = record { padded = refl; prioritised = refl; ends = refl }
flags_5 (some pad) none = record { padded = refl; prioritised = refl; ends = refl }
flags_5 _ _ = record { padded = refl; prioritised = refl; ends = refl }

end_value : (a : ℕ) → bit_and a end_flags ≡ a % 2 + 4 * (a / 4 % 2)
end_value a = omega (
  arith,
  bit_and_step a 5,
  bit_and_step (a / 2) 2,
  bit_and_step (a / 2 / 2) 1,
  bit_and-zero (a / 2 / 2 / 2),
)

pub flags_said :
    (pad : Option ℕ) (priority : Option Priority) (ends : ℕ)
    → SaysFlags pad priority (bit_and ends end_flags)
flags_said pad priority ends = elim (dec_lt 0 (ends % 2)) [
  | yes odd ↦ elim (dec_lt 0 (ends / 4 % 2)) [
    | yes four ↦
        let e : bit_and ends end_flags ≡ 5 = omega (arith, end_value ends) in
        rw e (flags_5 pad priority)
    | no not_four ↦
        let e : bit_and ends end_flags ≡ 1 = omega (arith, end_value ends) in
        rw e (flags_1 pad priority)
  ]
  | no even ↦ elim (dec_lt 0 (ends / 4 % 2)) [
    | yes four ↦
        let e : bit_and ends end_flags ≡ 4 = omega (arith, end_value ends) in
        rw e (flags_4 pad priority)
    | no not_four ↦
        let e : bit_and ends end_flags ≡ 0 = omega (arith, end_value ends) in
        rw e (flags_0 pad priority)
  ]
]
