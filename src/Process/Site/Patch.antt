-- ===== src/Process/Site/Patch.antt =====
-- The memory that a process with enabled sites shows: the program's own bytes, with 0xcc at each
-- enabled software site.
use kdebugger.Common.{
  ℕ, zero, suc, ◌+◌, ◌<◌, ◌≡◌, ◌≢◌, refl, subst, ◌∙◌, bit_and, bit_or, Bool, true, false, not, ◌&&◌,
  List, [], ◌∷◌, some, if◌then◌else◌, ◌==◌, get_elem?, set, All, arith,
}
use kdebugger.Common.Bits.{replace_low_byte, low_byte}
use kdebugger.Process.Tracee.{Tracee, word_at, word_at-congr, word_at-lt, poke-byte}
use kdebugger.Process.State.{Site}

abbrev pub patch : (ℕ → ℕ) → ℕ → ℕ → ℕ → ℕ
patch f a b x = if a == x then b else f x

-- The word at `a` with its lowest byte replaced is the word of the patched memory.
pub patched_word :
    (f : ℕ → ℕ) (a b : ℕ)
    → ((x : ℕ) → f x < 256)
    → b < 256
    → bit_or (bit_and (word_at f a 8) 0xffff_ffff_ffff_ff00) b ≡ word_at (patch f a b) a 8
patched_word f a b small hb =
    let above : word_at f (a + 1) 7 ≡ word_at (patch f a b) (a + 1) 7 =
      word_at-congr f (patch f a b) (a + 1) 7 (λ x lo hi. ground arith) in
    let here : patch f a b a ≡ b = ground arith in
    replace_low_byte (word_at f a 8) b (word_at-lt f a small) hb
    ∙ omega (arith, above, here, small a)

-- Poking that word changes the byte at `a` and no other.
pub poke_patched :
    (t : Tracee) (m m' : t.State) (a b word : ℕ)
    → b < 256
    → t.peek_data m a ≡ some word
    → t.poke_data m a (bit_or (bit_and word 0xffff_ffff_ffff_ff00) b) ≡ some m'
    → (x : ℕ) → t.byte m' x ≡ patch (t.byte m) a b x
poke_patched t m m' a b word hb seen written =
    let is_word : word ≡ word_at (t.byte m) a 8 = t.peek_word m a word seen in
    poke-byte t m m' (patch (t.byte m) a b) a (λ x. ground (arith, t.byte_lt m x))
      (λ x away. ground arith)
      (rw (is_word, patched_word (t.byte m) a b (t.byte_lt m) hb) at written)

-- The byte that a peek shows first.
pub peeked_byte :
    (t : Tracee) (m : t.State) (a word : ℕ)
    → t.peek_data m a ≡ some word
    → bit_and word 0xff ≡ t.byte m a
peeked_byte t m a word seen =
    low_byte word ∙ omega (arith, t.peek_word m a word seen, t.byte_lt m a)

-- An enabled software site.
abbrev pub is_armed : Site → Bool
is_armed site = site.is_enabled && not site.is_hardware

unfoldable pub trapped : List Site → (ℕ → ℕ) → ℕ → ℕ
trapped [] original x = original x
trapped (site ∷ rest) original x =
    let others = trapped rest original x in
    if is_armed site && site.address == x then 0xcc else others

abbrev pub Away : ℕ → List Site → Type 0
Away address sites = All (λ site. site.address ≢ address) sites

abbrev pub Distinct : List Site → Type 0
Distinct [] = Unit
Distinct (site ∷ rest) = Away site.address rest × Distinct rest

abbrev pub Saves : (ℕ → ℕ) → Site → Type 0
Saves original site = is_armed site ≡ true → site.saved_data ≡ original site.address

pub trapped-Away :
    (sites : List Site) (original : ℕ → ℕ) (x : ℕ)
    → Away x sites
    → trapped sites original x ≡ original x
unfolding trapped
trapped-Away [] original x away = refl
trapped-Away (site ∷ rest) original x (here, away) =
    ground (arith, trapped-Away rest original x away)

pub Away-get :
    (a : ℕ) (sites : List Site) (i : ℕ) (site : Site)
    → Away a sites
    → get_elem? sites i ≡ some site
    → site.address ≢ a
Away-get a [] i site away e = cc
Away-get a (s ∷ sites) zero site (here, away) e = λ same. here (ground arith)
Away-get a (s ∷ sites) (suc i) site (here, away) e = Away-get a sites i site away e

module _ (original : ℕ → ℕ) (site' : Site) where
  -- Arming an unarmed site.
  pub trapped-set_armed :
      (sites : List Site) (i : ℕ) (site : Site) (x : ℕ)
      → get_elem? sites i ≡ some site
      → is_armed site ≡ false
      → is_armed site' ≡ true
      → trapped (set sites i site') original x ≡ patch (trapped sites original) site'.address 0xcc x
  unfolding trapped
  trapped-set_armed [] i site x e off on = cc
  trapped-set_armed (s ∷ sites) zero site x e off on = ground arith
  trapped-set_armed (s ∷ sites) (suc i) site x e off on =
      ground (arith, trapped-set_armed sites i site x e off on)

  -- Putting an unarmed site in the place of one at the same address.
  pub trapped-set_unarmed :
      (sites : List Site) (i : ℕ) (site : Site) (x : ℕ)
      → get_elem? sites i ≡ some site
      → Distinct sites
      → site'.address ≡ site.address
      → is_armed site' ≡ false
      → trapped (set sites i site') original x
        ≡ patch (trapped sites original) site.address (original site.address) x
  unfolding trapped
  trapped-set_unarmed [] i site x e d same off = cc
  trapped-set_unarmed (s ∷ sites) zero site x e (away, d) same off =
      ground (arith, trapped-Away sites original s.address away)
  trapped-set_unarmed (s ∷ sites) (suc i) site x e (away, d) same off = ground (
    arith,
    Away-get s.address sites i site away e,
    trapped-set_unarmed sites i site x e d same off,
  )

  pub Away-set :
      (a : ℕ) (sites : List Site) (i : ℕ) (site : Site)
      → get_elem? sites i ≡ some site
      → site'.address ≡ site.address
      → Away a sites
      → Away a (set sites i site')
  Away-set a [] i site e same away = tt
  Away-set a (s ∷ sites) zero site e same (here, away) = (ground arith, away)
  Away-set a (s ∷ sites) (suc i) site e same (here, away) =
      (here, Away-set a sites i site e same away)

  pub Distinct-set :
      (sites : List Site) (i : ℕ) (site : Site)
      → get_elem? sites i ≡ some site
      → site'.address ≡ site.address
      → Distinct sites
      → Distinct (set sites i site')
  Distinct-set [] i site e same d = tt
  Distinct-set (s ∷ sites) zero site e same (away, d) =
      (subst (λ a. Away a sites) (ground arith) away, d)
  Distinct-set (s ∷ sites) (suc i) site e same (away, d) =
      (Away-set s.address sites i site e same away, Distinct-set sites i site e same d)

  pub Saves-set :
      (sites : List Site) (i : ℕ)
      → Saves original site'
      → All (Saves original) sites
      → All (Saves original) (set sites i site')
  Saves-set [] i new saves = tt
  Saves-set (s ∷ sites) zero new (here, saves) = (new, saves)
  Saves-set (s ∷ sites) (suc i) new (here, saves) = (here, Saves-set sites i new saves)
