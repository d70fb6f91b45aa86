-- ===== src/Process/Memory.antt =====
-- `read_memory`, `read_memory_without_traps` and `write_memory` of src/process.cpp. Sums of
-- addresses are exact: the source's wrap at 2^64 is not reached below the last page.
pub mod Ranges
pub mod Restore
pub mod Write
use kdebugger.Common.{
  ℕ, zero, suc, ◌+◌, ◌-◌, ◌*◌, bit_and, Bool, List, [], ◌∷◌, ◌++◌, Option, none, some,
  if◌then◌else◌, ◌==◌, leb, min, not, ◌||◌, set, length, drop, get_elem?, Outcome, ok, fail,
  sent_errno, undefined, ◌>>=◌,
}
use kdebugger.Stoppoints
use kdebugger.Process.Tracee.{Tracee, word_at}
use kdebugger.Process.State.{Site, Process, site_stoppoint}

-- The loop that builds `remote_descs`: one range for each page. Each round takes a byte at least,
-- so `amount` rounds are enough.
unfoldable pub remote_descs : ℕ → ℕ → ℕ → List (ℕ × ℕ)
remote_descs zero address amount = []
remote_descs (suc fuel) address amount =
    let up_to_next_page = 0x1000 - bit_and address 0xfff in
    let chunk_size = min amount up_to_next_page in
    let rest = remote_descs fuel (address + chunk_size) (amount - chunk_size) in
    if amount == 0 then [] else (address, chunk_size) ∷ rest

-- The local buffer starts as `amount` zeros, and the transfer overwrites its front.
unfoldable pub pad_zeros : ℕ → List ℕ → List ℕ
pad_zeros zero got = []
pad_zeros (suc n) [] = 0 ∷ pad_zeros n []
pad_zeros (suc n) (b ∷ got) = b ∷ pad_zeros n got

-- The loop over the sites in the region: enabled software sites give back their saved byte.
unfoldable pub restore_saved : List Site → ℕ → List ℕ → List ℕ
restore_saved [] address memory = memory
restore_saved (site ∷ rest) address memory = restore_saved rest address (
    if not site.is_enabled || site.is_hardware
    then memory
    else set memory (site.address - address) site.saved_data)

-- The bytes of a word in memory order.
unfoldable pub word_of : List ℕ → ℕ
word_of [] = 0
word_of (b ∷ bs) = b + 256 * word_of bs

abbrev pub take : ℕ → List ℕ → List ℕ
take zero bs = []
take (suc n) [] = []
take (suc n) (b ∷ bs) = b ∷ take n bs

module _ (t : Tracee) where
  unfoldable pub read_memory : Process t → ℕ → ℕ → Outcome (List ℕ)
  unfolding remote_descs pad_zeros
  read_memory p address amount = elim (t.readv p.tracee (remote_descs amount address amount)) [
    | none ↦ fail (sent_errno "Could not read process memory!\n")
    | some got ↦ ok (pad_zeros amount got)
  ]

  unfoldable pub read_memory_without_traps : Process t → ℕ → ℕ → Outcome (List ℕ)
  unfolding Stoppoints.get_in_region
  read_memory_without_traps p address amount = do
    memory ← read_memory p address amount
    let sites = Stoppoints.get_in_region site_stoppoint p.sites address (address + amount)
    ok (restore_saved sites address memory)

  -- The word that one round writes: eight bytes of the data, or what is left of it before the bytes
  -- that follow in memory.
  next_word : Process t → ℕ → List ℕ → Outcome ℕ
  unfolding read_memory word_of
  next_word p address rest =
      if leb 8 (length rest)
      then ok (word_of (take 8 rest))
      else (do read ← read_memory p address 8; ok (word_of (rest ++ drop (length rest) read)))

  poke_word : Process t → ℕ → ℕ → Outcome t.State
  poke_word p address word = elim (t.poke_data p.tracee address word) [
    | none ↦ fail (sent_errno "Failed to write memory")
    | some m ↦ ok m
  ]

  -- Each round writes eight bytes, so as many rounds as bytes are enough. `address` is the source's
  -- `address + written`, and `rest` is `data` from `written` on.
  unfoldable pub write_loop : ℕ → Process t → ℕ → List ℕ → Outcome (Process t)
  unfolding next_word poke_word
  write_loop fuel p address [] = ok p
  write_loop zero p address (b ∷ rest) = fail undefined
  write_loop (suc fuel) p address (b ∷ rest) = do
    word ← next_word p address (b ∷ rest)
    m ← poke_word p address word
    write_loop fuel (record p { tracee = m }) (address + 8) (drop 8 (b ∷ rest))

  unfoldable pub write_memory : Process t → ℕ → List ℕ → Outcome (Process t)
  unfolding write_loop
  write_memory p address bytes = write_loop (length bytes) p address bytes
