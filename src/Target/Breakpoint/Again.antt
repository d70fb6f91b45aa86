-- ===== src/Target/Breakpoint/Again.antt =====
-- That resolving a breakpoint again, as each reload of the libraries does, adds nothing where the files
-- have not changed.
use kdebugger.Common.{
  ℕ, ◌+◌, ◌≡◌, refl, sym, ap, ◌∙◌, subst, true, false, Bool-cases, List, [], ◌∷◌, ◌++◌, All, ◌==◌,
  if◌then◌else◌, length, inl, inr, ◌⊎◌, Outcome, ok, >>=-eq-ok, ok-injective, arith,
}
use kdebugger.Elf.Symbols.{Symbol}
use kdebugger.Dwarf.Die.{DieEntry}
use kdebugger.Dwarf.LineTable.ByLine.{Paths}
use kdebugger.Process.Tracee.{Tracee}
use kdebugger.Process.State.{Process}
use kdebugger.Process.Site.{enable, create_breakpoint_site}
use kdebugger.Target.{LoadedElf, Numbers}
use kdebugger.Target.Breakpoint.{
  Kind, at_address, at_function, at_line, Breakpoint, holds_site, is_empty, place_site,
  place_new_site, place_each, place_function, resolve_address, resolve_functions, resolve_kind,
  resolve,
}
use kdebugger.Target.Places.{
  find_target_functions, function_address, symbol_address, get_line_entries_by_line, line_address,
  has_code,
}

-- What no step of `resolve` takes from a breakpoint.
record Grown (b b' : Breakpoint) : Type 0 where
  kept : (a : ℕ) → holds_site a b.site_addresses ≡ true → holds_site a b'.site_addresses ≡ true
  kind : b'.kind ≡ b.kind

Grown-refl : (b : Breakpoint) → Grown b b
Grown-refl b = record { kept = λ a h. h; kind = refl }

Grown-trans : {b c d : Breakpoint} → Grown b c → Grown c d → Grown b d
Grown-trans g h = record { kept = λ a held. h.kept a (g.kept a held); kind = h.kind ∙ g.kind }

holds-append : (a : ℕ) (xs ys : List ℕ) → holds_site a xs ≡ true → holds_site a (xs ++ ys) ≡ true
unfolding holds_site
holds-append a [] ys h = cc
holds-append a (x ∷ xs) ys h = elim (Bool-cases (x == a)) [
  | inl here ↦ rw here refl
  | inr other ↦ rw other (holds-append a xs ys (rw other at h))
]

holds-last : (a : ℕ) (xs : List ℕ) → holds_site a (xs ++ (a ∷ [])) ≡ true
unfolding holds_site
holds-last a [] = ground arith
holds-last a (x ∷ xs) = elim (Bool-cases (x == a)) [
  | inl here ↦ rw here refl
  | inr other ↦ rw other (holds-last a xs)
]

-- An address that the breakpoint has a site at.
abbrev Held : {A : Type 0} → (A → Outcome ℕ) → Breakpoint → A → Type 0
Held address_of b x = (a : ℕ) × (address_of x ≡ ok a) × (holds_site a b.site_addresses ≡ true)

Held-Grown :
    {A : Type 0} (address_of : A → Outcome ℕ) (b b' : Breakpoint) (xs : List A)
    → Grown b b'
    → All (Held address_of b) xs
    → All (Held address_of b') xs
Held-Grown address_of b b' [] g h = tt
Held-Grown address_of b b' (x ∷ xs) g ((a, found, held), h) =
    ((a, found, g.kept a held), Held-Grown address_of b b' xs g h)

module _ (t : Tracee) (raw_id : ℕ → ℕ) (self : ℕ) where
  place_site-addresses :
      (address : ℕ) (b b' : Breakpoint) (p p' : Process t)
      → place_site t raw_id self address b p ≡ ok (b', p')
      → record b { site_addresses = b.site_addresses ++ (address ∷ []) } ≡ b'
  unfolding place_site
  place_site-addresses address b b' p p' h =
      let (p₁, made, h₁) =
        >>=-eq-ok
          (create_breakpoint_site t p _ b.next_site_id address b.is_hardware b.is_internal
            (raw_id address))
          _ h in
      let (p₂, on, h₂) =
        >>=-eq-ok (if b.is_enabled then enable t (length p.sites) p₁ else ok p₁) _ h₁ in
      ap (λ q. q.0) (ok-injective h₂)

  place_new_site-Held :
      (address : ℕ) (b b' : Breakpoint) (p p' : Process t)
      → place_new_site t raw_id self address b p ≡ ok (b', p')
      → Grown b b' × (holds_site address b'.site_addresses ≡ true)
  unfolding place_new_site
  place_new_site-Held address b b' p p' h =
      elim (Bool-cases (holds_site address b.site_addresses)) [
        | inl held ↦
            subst (λ (q : Breakpoint). Grown b q × (holds_site address q.site_addresses ≡ true))
              (ap (λ q. q.0) (ok-injective (rw held at h))) (Grown-refl b, held)
        | inr free ↦
            let ((b₁, p₁), placed, h₁) =
              >>=-eq-ok (place_site t raw_id self address b p) _ (rw free at h) in
            let grown : record b { site_addresses = b.site_addresses ++ (address ∷ []) } ≡ b₁ =
              place_site-addresses address b b₁ p p₁ placed in
            subst (λ (q : Breakpoint). Grown b q × (holds_site address q.site_addresses ≡ true))
              (ap (λ (q : Breakpoint). record q { next_site_id = b.next_site_id + 1 }) grown
                ∙ ap (λ q. q.0) (ok-injective h₁))
              (
                record { kept = λ a. holds-append a b.site_addresses (address ∷ []); kind = refl },
                holds-last address b.site_addresses,
              )
      ]

  place_each-Held :
      {A : Type 0} (address_of : A → Outcome ℕ) (xs : List A) (b b' : Breakpoint) (p p' : Process t)
      → place_each t raw_id self address_of xs b p ≡ ok (b', p')
      → Grown b b' × All (Held address_of b') xs
  unfolding place_each
  place_each-Held address_of [] b b' p p' h =
      (subst (Grown b) (ap (λ q. q.0) (ok-injective h)) (Grown-refl b), tt)
  place_each-Held address_of (x ∷ xs) b b' p p' h =
      let (a, found, h₁) = >>=-eq-ok (address_of x) _ h in
      let ((b₁, p₁), placed, h₂) = >>=-eq-ok (place_new_site t raw_id self a b p) _ h₁ in
      let (first, held) = place_new_site-Held a b b₁ p p₁ placed in
      let (others, all_held) = place_each-Held address_of xs b₁ b' p₁ p' h₂ in
      (Grown-trans first others, ((a, found, others.kept a held), all_held))

  place_new_site-again :
      (address : ℕ) (b : Breakpoint) (p : Process t)
      → holds_site address b.site_addresses ≡ true
      → place_new_site t raw_id self address b p ≡ ok (b, p)
  unfolding place_new_site
  place_new_site-again address b p held = rw held refl

  place_each-again :
      {A : Type 0} (address_of : A → Outcome ℕ) (xs : List A) (b : Breakpoint) (p : Process t)
      → All (Held address_of b) xs
      → place_each t raw_id self address_of xs b p ≡ ok (b, p)
  unfolding place_each
  place_each-again address_of [] b p h = refl
  place_each-again address_of (x ∷ xs) b p ((a, found, held), h) =
      rw (found, place_new_site-again a b p held) (place_each-again address_of xs b p h)

  -- What a function and the symbols of its name have got.
  abbrev IsPlaced : Numbers → List (LoadedElf × Symbol) → Breakpoint → LoadedElf × DieEntry → Type 0
  IsPlaced n symbols b (e, die) =
      ((has_code n die ≡ false) ⊎ Held (function_address n e) b die)
      × All (Held (λ (f, symbol). symbol_address f symbol) b) symbols

  place_function-placed :
      (n : Numbers) (e : LoadedElf) (die : DieEntry) (b b' : Breakpoint) (p p' : Process t)
      → place_function t raw_id self n (e, die) b p ≡ ok (b', p')
      → Grown b b' × ((has_code n die ≡ false) ⊎ Held (function_address n e) b' die)
  unfolding place_function
  place_function-placed n e die b b' p p' h = elim (Bool-cases (has_code n die)) [
    | inr without ↦ (
      subst (Grown b) (ap (λ q. q.0) (ok-injective (rw without at h))) (Grown-refl b),
      inl without,
    )
    | inl coded ↦
        let (a, found, h₁) = >>=-eq-ok (function_address n e die) _ (rw coded at h) in
        let (grown, held) = place_new_site-Held a b b' p p' h₁ in (grown, inr (a, found, held))
  ]

  IsPlaced-Grown :
      (n : Numbers) (symbols : List (LoadedElf × Symbol)) (b b' : Breakpoint)
      (functions : List (LoadedElf × DieEntry))
      → Grown b b'
      → All (IsPlaced n symbols b) functions
      → All (IsPlaced n symbols b') functions
  IsPlaced-Grown n symbols b b' [] g h = tt
  IsPlaced-Grown n symbols b b' ((e, die) ∷ functions) g ((inl without, s), h) =
      ((inl without, Held-Grown _ b b' symbols g s), IsPlaced-Grown n symbols b b' functions g h)
  IsPlaced-Grown n symbols b b' ((e, die) ∷ functions) g ((inr (a, found, held), s), h) = (
    (inr (a, found, g.kept a held), Held-Grown _ b b' symbols g s),
    IsPlaced-Grown n symbols b b' functions g h,
  )

  resolve_functions-IsPlaced :
      (n : Numbers) (functions : List (LoadedElf × DieEntry)) (symbols : List (LoadedElf × Symbol))
      (b b' : Breakpoint) (p p' : Process t)
      → resolve_functions t raw_id self n functions symbols b p ≡ ok (b', p')
      → Grown b b' × All (IsPlaced n symbols b') functions
  unfolding resolve_functions
  resolve_functions-IsPlaced n [] symbols b b' p p' h =
      (subst (Grown b) (ap (λ q. q.0) (ok-injective h)) (Grown-refl b), tt)
  resolve_functions-IsPlaced n ((e, die) ∷ functions) symbols b b' p p' h =
      let ((b₁, p₁), placed, h₁) = >>=-eq-ok (place_function t raw_id self n (e, die) b p) _ h in
      let ((b₂, p₂), around, h₂) =
        >>=-eq-ok (place_each t raw_id self (λ (f, symbol). symbol_address f symbol) symbols b₁ p₁)
          _ h₁ in
      let (g₁, here) = place_function-placed n e die b b₁ p p₁ placed in
      let (g₂, held) = place_each-Held _ symbols b₁ b₂ p₁ p₂ around in
      let (g₃, others) = resolve_functions-IsPlaced n functions symbols b₂ b' p₂ p' h₂ in
      let kept : (has_code n die ≡ false) ⊎ Held (function_address n e) b' die = elim here [
        | inl without ↦ inl without
        | inr (a, found, h₃) ↦ inr (a, found, g₃.kept a (g₂.kept a h₃))
      ] in
      (Grown-trans g₁ (Grown-trans g₂ g₃), ((kept, Held-Grown _ b₂ b' symbols g₃ held), others))

  place_function-again :
      (n : Numbers) (e : LoadedElf) (die : DieEntry) (b : Breakpoint) (p : Process t)
      → (has_code n die ≡ false) ⊎ Held (function_address n e) b die
      → place_function t raw_id self n (e, die) b p ≡ ok (b, p)
  unfolding place_function
  place_function-again n e die b p (inl without) = rw without refl
  place_function-again n e die b p (inr (a, found, held)) = elim (Bool-cases (has_code n die)) [
    | inl coded ↦ rw (coded, found) (place_new_site-again a b p held)
    | inr without ↦ rw without refl
  ]

  resolve_functions-again :
      (n : Numbers) (functions : List (LoadedElf × DieEntry)) (symbols : List (LoadedElf × Symbol))
      (b : Breakpoint) (p : Process t)
      → All (IsPlaced n symbols b) functions
      → resolve_functions t raw_id self n functions symbols b p ≡ ok (b, p)
  unfolding resolve_functions
  resolve_functions-again n [] symbols b p h = refl
  resolve_functions-again n ((e, die) ∷ functions) symbols b p ((here, held), h) =
      rw (place_function-again n e die b p here, place_each-again _ symbols b p held)
        (resolve_functions-again n functions symbols b p h)

  resolve_address-again :
      (address : ℕ) (b b' : Breakpoint) (p p' : Process t)
      → resolve_address t raw_id self address b p ≡ ok (b', p')
      → (b'.kind ≡ b.kind) × (resolve_address t raw_id self address b' p' ≡ ok (b', p'))
  unfolding resolve_address
  resolve_address-again address b b' p p' h = elim (Bool-cases (is_empty b.site_addresses)) [
    | inl empty ↦
        let grown : record b { site_addresses = b.site_addresses ++ (address ∷ []) } ≡ b' =
          place_site-addresses address b b' p p' (rw empty at h) in
        let full : is_empty b'.site_addresses ≡ false =
          subst (λ (q : Breakpoint). is_empty q.site_addresses ≡ false) grown
            (append-full b.site_addresses) in
        (sym (ap (λ (q : Breakpoint). q.kind) grown), rw full refl)
    | inr full ↦
        let same : b ≡ b' = ap (λ q. q.0) (ok-injective (rw full at h)) in
        let still : is_empty b'.site_addresses ≡ false =
          subst (λ (q : Breakpoint). is_empty q.site_addresses ≡ false) same full in
        (sym (ap (λ (q : Breakpoint). q.kind) same), rw still refl)
  ]
    where
      append-full : (xs : List ℕ) → is_empty (xs ++ (address ∷ [])) ≡ false
      append-full [] = refl
      append-full (x ∷ xs) = refl

  resolve_kind-again :
      (n : Numbers) (paths : Paths) (elves : List LoadedElf) (k : Kind) (b b' : Breakpoint)
      (p p' : Process t)
      → resolve_kind t raw_id self n paths elves k b p ≡ ok (b', p')
      → (b'.kind ≡ b.kind) × (resolve_kind t raw_id self n paths elves k b' p' ≡ ok (b', p'))
  unfolding resolve_kind
  resolve_kind-again n paths elves (at_address address) b b' p p' h =
      resolve_address-again address b b' p p' h
  resolve_kind-again n paths elves (at_function name) b b' p p' h =
      let (found, listed, h₁) = >>=-eq-ok (find_target_functions n elves name) _ h in
      let (grown, placed) =
        resolve_functions-IsPlaced n found.dwarf_functions found.elf_functions b b' p p' h₁ in
      (
        grown.kind,
        rw listed
            (resolve_functions-again n found.dwarf_functions found.elf_functions b' p' placed),
      )
  resolve_kind-again n paths elves (at_line file line) b b' p p' h =
      let (entries, listed, h₁) =
        >>=-eq-ok (get_line_entries_by_line n paths elves file line) _ h in
      let (grown, held) = place_each-Held (line_address n elves) entries b b' p p' h₁ in
      (grown.kind, rw listed (place_each-again (line_address n elves) entries b' p' held))

-- Resolving a breakpoint of any kind again, with the same files loaded, changes neither it nor the process.
pub resolve-resolve :
    (t : Tracee) (raw_id : ℕ → ℕ) (self : ℕ) (n : Numbers) (paths : Paths) (elves : List LoadedElf)
    (b b' : Breakpoint) (p p' : Process t)
    → resolve t raw_id self n paths elves b p ≡ ok (b', p')
    → resolve t raw_id self n paths elves b' p' ≡ ok (b', p')
unfolding resolve
resolve-resolve t raw_id self n paths elves b b' p p' h =
    let (kind, again) = resolve_kind-again t raw_id self n paths elves b.kind b b' p p' h in
    subst (λ k. resolve_kind t raw_id self n paths elves k b' p' ≡ ok (b', p')) (sym kind) again
