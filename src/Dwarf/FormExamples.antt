-- ===== src/Dwarf/FormExamples.antt =====
-- A value of an indirect form, skipped.
use kdebugger.Common.{ℕ, ◌≡◌, ◌<◌, [], ◌∷◌, arith, refl, if◌then◌else◌, ◌==◌, ok}
use kdebugger.Dwarf.Cursor.Leb.{IsLeb}
use kdebugger.Dwarf.Form.{Form, skip_form, indirect, exprloc, unrecognized}
use kdebugger.Dwarf.Form.Skip.{IsValue, other, expression, over, behind, skip_form-value}

-- Two of the numbers of the standard.
abbrev numbers : ℕ → Form
numbers n = if n == 0x16 then indirect else if n == 0x18 then exprloc else unrecognized

number-IsLeb : (n : ℕ) → n < 128 → IsLeb [] n
number-IsLeb n h = record { groups = tt; top = h; short = omega arith; fits = omega arith }

-- An indirect value whose form is an expression of two bytes.
indirect-IsValue : IsValue numbers (numbers 0x16) (0x18 ∷ 2 ∷ 0x91 ∷ 0x6c ∷ [])
indirect-IsValue =
    other [] 0x18 (2 ∷ 0x91 ∷ 0x6c ∷ []) (number-IsLeb 0x18 (omega arith))
      (expression [] 2 (0x91 ∷ 0x6c ∷ []) (number-IsLeb 2 (omega arith)) refl)

skip_form-value_example :
    skip_form numbers 0x16 (over (0x18 ∷ 2 ∷ 0x91 ∷ 0x6c ∷ []) (7 ∷ []) 10 20)
    ≡ ok (behind (0x18 ∷ 2 ∷ 0x91 ∷ 0x6c ∷ []) (7 ∷ []) 10 20)
skip_form-value_example =
    skip_form-value numbers 0x16 (0x18 ∷ 2 ∷ 0x91 ∷ 0x6c ∷ []) (7 ∷ []) 10 20 indirect-IsValue
      (omega arith)
