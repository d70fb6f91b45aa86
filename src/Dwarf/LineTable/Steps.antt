-- ===== src/Dwarf/LineTable/Steps.antt =====
-- Each step of an iterator over the line table takes a byte at least.
use kdebugger.Common.{
  ℕ, zero, suc, ◌+◌, ◌-◌, ◌/◌, ◌%◌, ◌++◌, ◌≤◌, ◌<◌, ◌≡◌, sym, ap, ◌∙◌, subst, Bool, ◌&&◌, [], ◌∷◌,
  none, some, length, get_elem?, arith, Outcome, ok, >>=-eq-ok, >>=-congr, ok-injective, fail-ne-ok,
  or_fail, or_fail-ok, Bool-cases, inl, inr, ◌==◌, ltb, if◌then◌else◌,
}
use kdebugger.Common.Word.{add64}
use kdebugger.Elf.Addresses.{move_up}
use kdebugger.Dwarf.Cursor.{Cursor, u8, u16, u64, uleb128, sleb128, string}
use kdebugger.Dwarf.Cursor.Takes.{fixed_int-takes, sleb128-shrinks, string-shrinks}
use kdebugger.Dwarf.Cursor.Leb.{uleb128_takes}
use kdebugger.Dwarf.LineTable.{
  Table, Iterator, Entry, StandardOpcode, copy, advance_pc, set_file, negate_stmt, set_basic_block,
  const_add_pc, fixed_advance_pc, set_prologue_end, set_epilogue_begin, set_isa,
  unexpected_standard, ExtendedOpcode, end_sequence, set_address, define_file, set_discriminator,
  unexpected_extended, File, parse_line_table_file, emit, become, execute_standard,
  execute_extended, execute_special, execute_instruction, next_loop, with_file, next,
}

-- The iterator stands at some cursor, with at most `n` bytes.
abbrev pub Within : ℕ → Iterator → Type 0
Within n it = (c : Cursor) × (it.position ≡ some c) × (length c.bytes ≤ n)

emit-Within :
    (n : ℕ) (it it' : Iterator) (c : Cursor) (b : Bool)
    → length c.bytes ≤ n
    → emit it c ≡ ok (b, it')
    → Within n it'
emit-Within n it it' c b h e = (c, cc, h)

become-Within :
    (n : ℕ) (it it' : Iterator) (r : Entry) (c : Cursor) (b : Bool)
    → length c.bytes ≤ n
    → become it r c ≡ ok (b, it')
    → Within n it'
become-Within n it it' r c b h e = (c, cc, h)

uleb128-shrinks :
    (c c' : Cursor) (v : ℕ) → uleb128 c ≡ ok (v, c') → length c'.bytes ≤ length c.bytes
uleb128-shrinks c c' v e = let (less, _, _, _) = uleb128_takes c c' v e in omega arith

execute_standard-Within :
    (t : Table) (op : StandardOpcode) (it it' : Iterator) (c : Cursor) (b : Bool)
    → execute_standard t op it c ≡ ok (b, it')
    → Within (length c.bytes) it'
unfolding execute_standard
execute_standard-Within t copy it it' c b e = emit-Within _ it it' c b (omega arith) e
execute_standard-Within t advance_pc it it' c b e =
    let ((v, c₁), got, e₁) = >>=-eq-ok (sleb128 c) _ e in
    become-Within _ it it' _ c₁ b (omega (arith, sleb128-shrinks c c₁ v got)) e₁
execute_standard-Within t set_file it it' c b e =
    let ((v, c₁), got, e₁) = >>=-eq-ok (uleb128 c) _ e in
    become-Within _ it it' _ c₁ b (uleb128-shrinks c c₁ v got) e₁
execute_standard-Within t negate_stmt it it' c b e = become-Within _ it it' _ c b (omega arith) e
execute_standard-Within t set_basic_block it it' c b e =
    become-Within _ it it' _ c b (omega arith) e
execute_standard-Within t const_add_pc it it' c b e = elim (Bool-cases (t.line_range == 0)) [
  | inl none_left ↦ absurd (fail-ne-ok (rw none_left at e))
  | inr some_left ↦ become-Within _ it it' _ c b (omega arith) (rw some_left at e)
]
execute_standard-Within t fixed_advance_pc it it' c b e =
    let ((v, c₁), got, e₁) = >>=-eq-ok (u16 c) _ e in
    become-Within _ it it' _ c₁ b (omega (arith, fixed_int-takes 2 c c₁ v got)) e₁
execute_standard-Within t set_prologue_end it it' c b e =
    become-Within _ it it' _ c b (omega arith) e
execute_standard-Within t set_epilogue_begin it it' c b e =
    become-Within _ it it' _ c b (omega arith) e
execute_standard-Within t set_isa it it' c b e = become-Within _ it it' _ c b (omega arith) e
execute_standard-Within t unexpected_standard it it' c b e = absurd (fail-ne-ok e)

some_of : {a b : Cursor} → some a ≡ some b → a ≡ b
some_of e = cc

second_of_ok {ℓ κ} :
    {A : Type ℓ} {B : Type κ} {a a' : A} {b b' : B}
    → ◌≡◌ {A = Outcome (A × B)} (ok (a, b)) (ok (a', b'))
    → b ≡ b'
second_of_ok e = cc

file-shrinks :
    (t : Table) (c c' : Cursor) (file : File)
    → parse_line_table_file t c ≡ ok (file, c')
    → length c'.bytes ≤ length c.bytes
unfolding parse_line_table_file
file-shrinks t c c' file e =
    let ((name, c₁), got, e₁) = >>=-eq-ok (string c) _ e in
    let ((dir, c₂), got₂, e₂) = >>=-eq-ok (uleb128 c₁) _ e₁ in
    let ((modified, c₃), got₃, e₃) = >>=-eq-ok (uleb128 c₂) _ e₂ in
    let ((size, c₄), got₄, e₄) = >>=-eq-ok (uleb128 c₃) _ e₃ in
    let (path, got₅, e₅) = >>=-eq-ok (or_fail (t.resolve dir name)) _ e₄ in
    let (l₂, _, _, _) = uleb128_takes c₁ c₂ dir got₂ in
    let (l₃, _, _, _) = uleb128_takes c₂ c₃ modified got₃ in
    let (l₄, _, _, _) = uleb128_takes c₃ c₄ size got₄ in
    let same : c₄ ≡ c' = second_of_ok e₅ in
    subst (λ (d : Cursor). length d.bytes ≤ length c.bytes) same
      (omega (arith, string-shrinks c c₁ name got, l₂, l₃, l₄))

execute_extended-Within :
    (t : Table) (op : ExtendedOpcode) (it it' : Iterator) (c : Cursor) (b : Bool)
    → execute_extended t op it c ≡ ok (b, it')
    → Within (length c.bytes) it'
unfolding execute_extended
execute_extended-Within t end_sequence it it' c b e = (c, cc, omega arith)
execute_extended-Within t set_address it it' c b e =
    let ((v, c₁), got, e₁) = >>=-eq-ok (u64 c) _ e in
    become-Within _ it it' _ c₁ b (omega (arith, fixed_int-takes 8 c c₁ v got)) e₁
execute_extended-Within t define_file it it' c b e =
    let ((file, c₁), got, e₁) = >>=-eq-ok (parse_line_table_file t c) _ e in
    become-Within _ (record it { files = it.files ++ (file ∷ []) }) it' it.registers c₁ b
      (file-shrinks t c c₁ file got) e₁
execute_extended-Within t set_discriminator it it' c b e =
    let ((v, c₁), got, e₁) = >>=-eq-ok (uleb128 c) _ e in
    let (less, _, _, _) = uleb128_takes c c₁ v got in
    become-Within _ it it' _ c₁ b (omega (arith, less)) e₁
execute_extended-Within t unexpected_extended it it' c b e = absurd (fail-ne-ok e)

execute_special-Within :
    (t : Table) (opcode : ℕ) (it it' : Iterator) (c : Cursor) (b : Bool)
    → execute_special t opcode it c ≡ ok (b, it')
    → Within (length c.bytes) it'
unfolding execute_special
execute_special-Within t opcode it it' c b e = elim (Bool-cases (t.line_range == 0)) [
  | inl none_left ↦ absurd (fail-ne-ok (rw none_left at e))
  | inr some_left ↦
      let r = it.registers in
      let adjusted = opcode - t.opcode_base in
      emit-Within _
        (record it {
          registers = record r {
            address = move_up r.address (adjusted / t.line_range);
            line = add64 r.line (add64 t.line_base (adjusted % t.line_range));
          };
        })
        it' c b (omega arith) (rw some_left at e)
]

-- An instruction takes a byte at least.
execute_instruction-Within :
    (t : Table) (it it' : Iterator) (c : Cursor) (b : Bool)
    → execute_instruction t it c ≡ ok (b, it')
    → (c' : Cursor) × (it'.position ≡ some c') × (length c'.bytes < length c.bytes)
unfolding execute_instruction
execute_instruction-Within t it it' c b e =
    let ((opcode, c₁), got, e₁) = >>=-eq-ok (u8 (record c { end = t.data_end })) _ e in
    let one = fixed_int-takes 1 (record c { end = t.data_end }) c₁ opcode got in
    elim (Bool-cases (ltb 0 opcode && ltb opcode t.opcode_base)) [
      | inl standard ↦
          let (c', at, le) =
            execute_standard-Within t (t.standard opcode) it it' c₁ b (rw standard at e₁) in
          (c', at, omega arith)
      | inr other ↦
          let e₂ = rw other at e₁ in
          elim (Bool-cases (opcode == 0)) [
            | inr special ↦
                let (c', at, le) = execute_special-Within t opcode it it' c₁ b (rw special at e₂) in
                (c', at, omega arith)
            | inl extended ↦
                let ((len, c₂), got₂, e₃) = >>=-eq-ok (uleb128 c₁) _ (rw extended at e₂) in
                let ((sub, c₃), got₃, e₄) = >>=-eq-ok (u8 c₂) _ e₃ in
                let (c', at, le) = execute_extended-Within t (t.extended sub) it it' c₃ b e₄ in
                (
                  c',
                  at,
                  omega (arith, uleb128-shrinks c₁ c₂ len got₂, fixed_int-takes 1 c₂ c₃ sub got₃),
                )
          ]
    ]

-- A step of the loop of `operator ++` ends at a cursor with fewer bytes.
next_loop-Within :
    (fuel : ℕ) (t : Table) (it it' : Iterator) (c : Cursor)
    → next_loop fuel t it c ≡ ok it'
    → (c' : Cursor) × (it'.position ≡ some c') × (length c'.bytes < length c.bytes)
unfolding next_loop
next_loop-Within zero t it it' c e = absurd (fail-ne-ok e)
next_loop-Within (suc fuel) t it it' c e =
    let ((emitted, it₁), got, e₁) = >>=-eq-ok (execute_instruction t it c) _ e in
    let (c₁, at, e₂) = >>=-eq-ok (or_fail it₁.position) _ e₁ in
    let (c₂, at₂, less) = execute_instruction-Within t it it₁ c emitted got in
    let same : c₂ ≡ c₁ = some_of (sym at₂ ∙ or_fail-ok it₁.position at) in
    let less₁ : length c₁.bytes < length c.bytes =
      subst (λ (d : Cursor). length d.bytes < length c.bytes) same less in
    elim (Bool-cases emitted) [
      | inl on ↦
          subst
            (λ (i : Iterator).
              (c' : Cursor) × (i.position ≡ some c') × (length c'.bytes < length c.bytes))
            (ok-injective (rw on at e₂)) (c₁, or_fail-ok it₁.position at, less₁)
      | inr off ↦
          let (c', at', lt) = next_loop-Within fuel t it₁ it' c₁ (rw off at e₂) in
          (c', at', omega arith)
    ]

if-congr :
    (b : Bool) (x y z : Outcome Iterator) → y ≡ z → (if b then x else y) ≡ (if b then x else z)
if-congr b x y z e = ap (λ (w : Outcome Iterator). if b then x else w) e

-- The rounds that `next` gives to the loop of `operator ++` are enough: with any more of them the
-- loop does the same, in every case and at every position.
pub next_loop-enough :
    (fuel extra : ℕ) (t : Table) (it : Iterator) (c : Cursor)
    → length c.bytes < fuel
    → next_loop (fuel + extra) t it c ≡ next_loop fuel t it c
unfolding next_loop
next_loop-enough zero extra t it c h = absurd (omega arith)
next_loop-enough (suc fuel) extra t it c h =
    let shift : suc fuel + extra ≡ suc (fuel + extra) = omega arith in
    rw shift (
      >>=-congr (execute_instruction t it c) _ _ (λ r got.
        >>=-congr (or_fail (r.1).position) _ _ (λ c₁ at.
          let (c₂, at₂, less) = execute_instruction-Within t it r.1 c r.0 got in
          let same : c₂ ≡ c₁ = some_of (sym at₂ ∙ or_fail-ok (r.1).position at) in
          let less₁ : length c₁.bytes < length c.bytes =
            subst (λ (d : Cursor). length d.bytes < length c.bytes) same less in
          if-congr r.0 (ok r.1) _ _ (next_loop-enough fuel extra t r.1 c₁ (omega arith)))))

no_cursor : (it : Iterator) (c : Cursor) → it.position ≡ none → it.position ≡ some c → ⊥
no_cursor it c e e' = cc

with_file-position : (it it' : Iterator) → with_file it ≡ ok it' → it'.position ≡ it.position
with_file-position it it' e = elim (Bool-cases (it.current.file_index == 0)) [
  | inl first ↦ absurd (fail-ne-ok (rw first at e))
  | inr later ↦
      let (file, got, e₁) =
        >>=-eq-ok (or_fail (get_elem? it.files (it.current.file_index - 1))) _ (rw later at e) in
      ap (λ (i : Iterator). i.position) (sym (ok-injective e₁))
]

-- A step of an iterator takes a byte at least, or reaches `end()`.
pub next-takes :
    (t : Table) (it it' : Iterator) (c c' : Cursor)
    → it.position ≡ some c
    → next t it ≡ ok it'
    → it'.position ≡ some c'
    → length c'.bytes < length c.bytes
unfolding next
next-takes t it it' c c' at e at' =
    let (c₀, here, e₁) = >>=-eq-ok (or_fail it.position) _ e in
    let same : c ≡ c₀ = some_of (sym at ∙ or_fail-ok it.position here) in
    elim (Bool-cases (c₀.pos == t.data_end)) [
      | inl ended ↦ absurd (
          no_cursor it' c' (ap (λ (i : Iterator). i.position) (sym (ok-injective (rw ended at e₁))))
            at')
      | inr inside ↦
          let (it₁, got, e₂) =
            >>=-eq-ok (next_loop (length c₀.bytes + 1) t it c₀) _ (rw inside at e₁) in
          let (c₁, at₁, less) = next_loop-Within (length c₀.bytes + 1) t it it₁ c₀ got in
          let same₁ : c₁ ≡ c' = some_of (sym at₁ ∙ sym (with_file-position it₁ it' e₂) ∙ at') in
          subst (λ (d : Cursor). length c'.bytes < length d.bytes) (sym same)
            (subst (λ (d : Cursor). length d.bytes < length c₀.bytes) same₁ less)
    ]
