-- ===== src/Elf/Addresses.antt =====
-- The operators of `file_addr` in include/libkdebugger/types.hpp. Two pointers to an `elf` are equal
-- when the files' numbers are.
use kdebugger.Common.{
  ℕ, Bool, true, false, not, ◌&&◌, Option, none, some, ◌==◌, ltb, leb, if◌then◌else◌, Outcome, ok,
  fail, undefined, or_fail, ◌>>=◌,
}
use kdebugger.Common.Word.{add64, sub64}
use kdebugger.Elf.{Elf, FileAddr}

abbrev pub same_file : Option Elf → Option Elf → Bool
same_file none none = true
same_file none (some e) = false
same_file (some e) none = false
same_file (some e) (some other) = e.number == other.number

-- `operator +` dereferences the file.
unfoldable pub plus : FileAddr → ℕ → Outcome FileAddr
plus a offset = do
  e ← or_fail a.elf_file
  ok (record { elf_file = some e; addr = add64 a.addr offset })

unfoldable pub minus : FileAddr → ℕ → Outcome FileAddr
minus a offset = do
  e ← or_fail a.elf_file
  ok (record { elf_file = some e; addr = sub64 a.addr offset })

-- `operator +=` and `operator -=`.
unfoldable pub move_up : FileAddr → ℕ → FileAddr
move_up a offset = record a { addr = add64 a.addr offset }

unfoldable pub move_down : FileAddr → ℕ → FileAddr
move_down a offset = record a { addr = sub64 a.addr offset }

unfoldable pub equal : FileAddr → FileAddr → Bool
equal a b = (a.addr == b.addr) && same_file a.elf_file b.elf_file

-- `operator !=`, whose two tests are joined by `&&`.
unfoldable pub unequal : FileAddr → FileAddr → Bool
unequal a b = not (a.addr == b.addr) && not (same_file a.elf_file b.elf_file)

-- A comparison asserts that both addresses are in one file.
abbrev pub compared : (ℕ → ℕ → Bool) → FileAddr → FileAddr → Outcome Bool
compared test a b =
    if same_file a.elf_file b.elf_file then ok (test a.addr b.addr) else fail undefined

unfoldable pub less : FileAddr → FileAddr → Outcome Bool
less = compared ltb

unfoldable pub less_equal : FileAddr → FileAddr → Outcome Bool
less_equal = compared leb

unfoldable pub greater : FileAddr → FileAddr → Outcome Bool
greater = compared (λ a b. ltb b a)

unfoldable pub greater_equal : FileAddr → FileAddr → Outcome Bool
greater_equal = compared (λ a b. leb b a)
