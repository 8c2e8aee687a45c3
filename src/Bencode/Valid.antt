-- ===== src/Bencode/Valid.antt =====
-- bencode/scanner.go: `Valid`, `checkValid` and `eof`.
use bget.Common.{
  ℕ, zero, suc, ◌+◌, ◌*◌, ◌^◌, Bool, true, false, ◌&&◌, ltb, ◌==◌, if◌then◌else◌, List, Option,
  none, some, length, get_elem?,
}
use bget.Bencode.Scanner.{
  Scanner, SyntaxError, Code, unexpected_end, out_of_index, int64, reset, fresh, step_in,
}

-- `fault` is an index out of range, or an error that is returned with no value; `running` is no outcome
-- of the code, but of a bound on the rounds that was too small.
-- Where it is nil that `checkValid` returns, `valid` has the scanner that it leaves.
pub data Verdict : Type 0 where
  fault running : Verdict
  valid : Scanner → Verdict
  invalid : SyntaxError → Verdict

abbrev of_err : Scanner → Option SyntaxError → Verdict
of_err s none = valid s
of_err s (some e) = invalid e

-- `checkValid` returns `scan.err` where the code is scanError.
unfoldable pub eof : Scanner → Verdict
unfolding step_in
eof s = elim s.err [
  | some e ↦ invalid e
  | none ↦
      if s.end_top
      then valid s
      else let s₁ = (step_in s.step s b' ').0 in
        if s₁.end_top then valid s₁ else elim s₁.err [
          | some e ↦ invalid e
          | none ↦ invalid (record { reason = unexpected_end; offset = s₁.bytes })
        ]
]

abbrev pub is_error : Code → Bool
is_error Code.error = true
is_error _ = false

-- The signed comparison `i > len` of a 64-bit pattern.
abbrev pub beyond : ℕ → ℕ → Bool
beyond i len = ltb i (2 ^ 63) && ltb len i

abbrev pub before : Scanner → Scanner
before s = record s { bytes = int64 (s.bytes + s.step_size) }

unfoldable pub check_from : ℕ → Scanner → ℕ → List ℕ → Verdict
check_from zero s i input = running
check_from (suc fuel) s i input = elim (i == length input) [
  | true ↦ eof s
  | false ↦ elim (beyond i (length input)) [
    | true ↦ invalid (record { reason = out_of_index; offset = i })
    | false ↦ elim (get_elem? input i) [
      | none ↦ fault
      | some c ↦
          let after = step_in s.step (before s) c in
          elim (is_error after.1) [
            | true ↦ of_err after.0 after.0.err
            | false ↦ check_from fuel after.0 (int64 (i + after.0.step_size)) input
          ]
    ]
  ]
]

-- A round moves on by a byte at least, but for one behind an empty string.
abbrev pub rounds : List ℕ → ℕ
rounds input = 2 * length input + 2

unfoldable pub check_valid : List ℕ → Scanner → Verdict
unfolding check_from reset
check_valid input scan = check_from (rounds input) (reset scan) 0 input

-- `Valid(data)`
unfoldable pub is_valid : List ℕ → Bool
unfolding check_valid
is_valid input = elim (check_valid input fresh) [ valid s ↦ true | _ ↦ false ]
