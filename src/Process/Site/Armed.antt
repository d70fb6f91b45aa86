-- ===== src/Process/Site/Armed.antt =====
-- Arming and disarming a site, and changing one that stays off.
use kdebugger.Common.{
  String, ℕ, zero, suc, ◌≡◌, refl, bit_and, bit_or, true, false, ◌<◌, List, [], ◌∷◌, Option, none,
  some, get_elem?, set, All, arith, ok, fail, sent_errno,
}
use kdebugger.Process.Tracee.{Tracee}
use kdebugger.Process.State.{Site, Process}
use kdebugger.Process.Hardware.Keeps.{Keeps}
use kdebugger.Process.Site.{or_errno, poke}
use kdebugger.Process.Site.Patch.{
  poke_patched, peeked_byte, is_armed, trapped, Distinct, Saves, trapped-Away, trapped-set_armed,
  trapped-set_unarmed, Away-get, Distinct-set, Saves-set,
}

pub or_errno-ok : (o : Option ℕ) (message : String) {w : ℕ} → or_errno o message ≡ ok w → o ≡ some w
or_errno-ok none message e = cc
or_errno-ok (some b) message e = cc

-- The other sites are elsewhere than an unarmed site, so its own address shows the program's byte.
pub trapped-unarmed :
    (sites : List Site) (original : ℕ → ℕ) (i : ℕ) (site : Site)
    → Distinct sites
    → get_elem? sites i ≡ some site
    → is_armed site ≡ false
    → trapped sites original site.address ≡ original site.address
unfolding trapped
trapped-unarmed [] original i site d e off = cc
trapped-unarmed (s ∷ sites) original zero site (away, d) e off =
    ground (arith, trapped-Away sites original s.address away)
trapped-unarmed (s ∷ sites) original (suc i) site (away, d) e off =
    ground
      (arith, Away-get s.address sites i site away e, trapped-unarmed sites original i site d e off)

pub Saves-get :
    (original : ℕ → ℕ) (sites : List Site) (i : ℕ) (site : Site)
    → All (Saves original) sites
    → get_elem? sites i ≡ some site
    → Saves original site
Saves-get original [] i site saves e = cc
Saves-get original (s ∷ sites) zero site (here, saves) e = ground (arith, here)
Saves-get original (s ∷ sites) (suc i) site (here, saves) e =
    Saves-get original sites i site saves e

module _ (t : Tracee) (original : ℕ → ℕ) where
  -- The tracee shows the program's bytes but for the traps; each enabled software site has saved the
  -- byte that it covers; no two sites share an address.
  pub record IsTrapped (p : Process t) : Type 0 where
    pub shown : (x : ℕ) → t.byte p.tracee x ≡ trapped p.sites original x
    pub saves : All (Saves original) p.sites
    pub distinct : Distinct p.sites

  pub poke-ok :
      (p q : Process t) (address word : ℕ) (message : String)
      → poke t p address word message ≡ ok q
      → (m : t.State) × (t.poke_data p.tracee address word ≡ some m) × (q ≡ record p { tracee = m })
  unfolding poke
  poke-ok p q address word message e = stored (t.poke_data p.tracee address word) refl e
    where
      stored :
          (o : Option t.State)
          → t.poke_data p.tracee address word ≡ o
          → elim o [ none ↦ fail (sent_errno message) | some m ↦ ok (record p { tracee = m }) ]
            ≡ ok q
          → (m : t.State) × (t.poke_data p.tracee address word ≡ some m)
            × (q ≡ record p { tracee = m })
      stored none wrote e' = cc
      stored (some m) wrote e' = (m, wrote, ground arith)

  -- The trap is in place.
  pub arm-IsTrapped :
      (i : ℕ) (p : Process t) (m : t.State) (site : Site) (word : ℕ)
      → IsTrapped p
      → get_elem? p.sites i ≡ some site
      → is_armed site ≡ false
      → site.is_hardware ≡ false
      → t.peek_data p.tracee site.address ≡ some word
      → t.poke_data p.tracee site.address (bit_or (bit_and word 0xffff_ffff_ffff_ff00) 0xcc)
        ≡ some m
      → IsTrapped (record p {
        tracee = m;
        sites = set p.sites i (record site { saved_data = bit_and word 0xff; is_enabled = true });
      })
  arm-IsTrapped i p m site word v found off soft seen wrote =
      let armed : Site = record site { saved_data = bit_and word 0xff; is_enabled = true } in
      record {
        shown = λ x. ground (
          arith,
          poke_patched t p.tracee m site.address 0xcc word (omega arith) seen wrote x,
          trapped-set_armed original armed p.sites i site x found off (ground arith),
          v.shown x,
        );
        saves =
            Saves-set original armed p.sites i
              (λ on. ground (
                arith,
                peeked_byte t p.tracee site.address word seen,
                v.shown site.address,
                trapped-unarmed p.sites original i site v.distinct found off,
              ))
              v.saves;
        distinct = Distinct-set original armed p.sites i site found refl v.distinct;
      }

  -- The saved byte is back, and the site is off.
  pub disarm-IsTrapped :
      (i : ℕ) (p : Process t) (m : t.State) (site : Site) (word : ℕ)
      → IsTrapped p
      → get_elem? p.sites i ≡ some site
      → is_armed site ≡ true
      → t.peek_data p.tracee site.address ≡ some word
      → t.poke_data p.tracee site.address
          (bit_or (bit_and word 0xffff_ffff_ffff_ff00) site.saved_data)
        ≡ some m
      → ((x : ℕ) → original x < 256)
      → IsTrapped
          (record p { tracee = m; sites = set p.sites i (record site { is_enabled = false }) })
  disarm-IsTrapped i p m site word v found on seen wrote small =
      let plain : Site = record site { is_enabled = false } in
      let saved : site.saved_data ≡ original site.address =
        Saves-get original p.sites i site v.saves found on in
      record {
        shown = λ x. ground (
          arith,
          poke_patched t p.tracee m site.address site.saved_data word
              (omega (arith, saved, small site.address)) seen wrote x,
          trapped-set_unarmed original plain p.sites i site x found v.distinct refl (ground arith),
          v.shown x,
          saved,
        );
        saves = Saves-set original plain p.sites i (λ on'. cc) v.saves;
        distinct = Distinct-set original plain p.sites i site found refl v.distinct;
      }

  pub keep-IsTrapped :
      (i : ℕ) (p q : Process t) (site site' : Site)
      → IsTrapped p
      → Keeps t p q
      → get_elem? p.sites i ≡ some site
      → is_armed site ≡ false
      → is_armed site' ≡ false
      → site'.address ≡ site.address
      → IsTrapped (record q { sites = set q.sites i site' })
  keep-IsTrapped i p q site site' v k found off off' same =
      let found' : get_elem? q.sites i ≡ some site = rw k.sites found in
      let d : Distinct q.sites = rw k.sites v.distinct in
      record {
        shown = λ x. ground (
          arith,
          trapped-set_unarmed original site' q.sites i site x found' d same off',
          trapped-unarmed p.sites original i site v.distinct found off,
          k.memory x,
          k.sites,
          v.shown x,
        );
        saves = Saves-set original site' q.sites i (λ on. cc) (rw k.sites v.saves);
        distinct = Distinct-set original site' q.sites i site found' same d;
      }
