-- ===== src/Bitmap/Search.antt =====
-- The outer loop of alloc_bit: it marks one clear bit of the map, or has seen every bit set.
use minixfs_old.Base.{
  ℕ, zero, suc, ◌+◌, ◌-◌, ◌*◌, ◌/◌, ◌<◌, ◌≡◌, refl, sym, subst, ◌∙◌, true, false, none, some, List,
  ◌⊎◌, inl, inr, arith, Option-cases, get_elem?, set, drop, length, get_elem?-drop, Run, done,
}
use minixfs_old.Common.{no_bit, Which, Block, map_block, Store, get_block, put_block}
use minixfs_old.Bitmap.{
  Bitmap, first_block, map_bits, bit_blocks, Slot, scan_words, next_block, scan_blocks, settle,
}
use minixfs_old.Bitmap.Word.{test_bit, set_bit}
use minixfs_old.Bitmap.Scan.{IsWords, Found, scan_words-Found, scan_words-none, IsWords-drop}

-- A block of bit chunks of the device's block size.
abbrev pub IsMapBlock : Bitmap → Block → Type 0
IsMapBlock m b =
    (ws : List ℕ) × (b ≡ map_block ws) × (length ws ≡ m.devinfo.blocksize / 2) × IsWords ws

-- Every block of the map is one.
abbrev pub IsMapped : Bitmap → Which → Store → Type 0
IsMapped m which st =
    (t : ℕ) → t < bit_blocks m which → IsMapBlock m (get_block st m.devno (first_block m which + t))

pub map_block-injective : (u v : List ℕ) → map_block u ≡ map_block v → u ≡ v
map_block-injective u v e = cc

module _ (m : Bitmap) (which : Which) (st : Store) where
  -- One clear bit inside the map was found and marked, and it has number b.
  pub record Marked (b : ℕ) (st' : Store) : Type 0 where
    pub block : ℕ
    pub words : List ℕ
    pub slot : Slot
    pub in_blocks : block < bit_blocks m which
    pub at : get_block st m.devno (first_block m which + block) ≡ map_block words
    pub there : get_elem? words slot.index ≡ some slot.word
    pub clear : test_bit slot.word slot.bit ≡ false
    pub in_word : slot.bit < 16
    pub number : b ≡ block * m.bitchunks_per_block + slot.index * 16 + slot.bit
    pub in_map : b < map_bits m which
    pub result :
        st'
        ≡ put_block st m.devno
            (first_block m which + block)
            (map_block (set words slot.index (set_bit slot.word slot.bit)))

  -- Every bit of block t whose number lies in the map is set.
  abbrev pub IsFull : ℕ → Type 0
  IsFull t =
      (ws : List ℕ)
      → get_block st m.devno (first_block m which + t) ≡ map_block ws
      → (j w k : ℕ) → get_elem? ws j ≡ some w
      → k < 16
      → t * m.bitchunks_per_block + j * 16 + k < map_bits m which
      → test_bit w k ≡ true

  -- The blocks that n rounds from `block` on see from their first word are full.
  abbrev pub Seen : ℕ → ℕ → ℕ → Type 0
  Seen n block word =
      (t d : ℕ)
      → t < bit_blocks m which
      → d < n
      → (block + d ≡ t) ⊎ (block + d ≡ t + bit_blocks m which)
      → (d ≡ 0 → word ≡ 0)
      → IsFull t

  pub data Scanned (n block word : ℕ) : Run (ℕ × Store) → Type 0 where
    hit : (b : ℕ) (st' : Store) → Marked b st' → Scanned n block word (done (b, st'))
    miss : Seen n block word → Scanned n block word (done (no_bit, st))

  scan_words-IsFull :
      (t : ℕ) (ws : List ℕ)
      → get_block st m.devno (first_block m which + t) ≡ map_block ws
      → IsWords ws
      → scan_words (t * m.bitchunks_per_block) (map_bits m which) 0 ws ≡ none
      → IsFull t
  scan_words-IsFull t ws at ok nothing vs av j w k g p q =
      let same : vs ≡ ws = map_block-injective vs ws (sym av ∙ at) in
      scan_words-none _ _ 0 ws ok nothing j w k (rw same at g) p (omega arith)

  Seen-step :
      (n block word : ℕ) (ws : List ℕ)
      → block < bit_blocks m which
      → get_block st m.devno (first_block m which + block) ≡ map_block ws
      → IsWords ws
      → scan_words (block * m.bitchunks_per_block) (map_bits m which) word (drop word ws) ≡ none
      → Seen n (next_block m which block) 0
      → Seen (suc n) block word
  Seen-step n block word ws h e ok nothing later t zero p q r s =
      let same : block ≡ t = ground arith in
      let first : word ≡ 0 = s refl in
      subst IsFull same (
        scan_words-IsFull block ws e ok (
          subst
            (λ x.
              scan_words (block * m.bitchunks_per_block) (map_bits m which) x (drop x ws) ≡ none)
            first nothing))
  Seen-step n block word ws h e ok nothing later t (suc d) p q r s =
      later t d p (omega arith) (ground arith) (λ _. refl)

  Found-Marked :
      (block word : ℕ) (ws : List ℕ) (s : Slot)
      → block < bit_blocks m which
      → get_block st m.devno (first_block m which + block) ≡ map_block ws
      → Found (block * m.bitchunks_per_block) (map_bits m which) word (drop word ws) s
      → Marked (block * m.bitchunks_per_block + s.index * 16 + s.bit) (
          put_block st m.devno
            (first_block m which + block)
            (map_block (set ws s.index (set_bit s.word s.bit))))
  Found-Marked block word ws s h e f =
      let back : word + (s.index - word) ≡ s.index = omega (arith, f.after) in
      record {
        block = block;
        words = ws;
        slot = s;
        in_blocks = h;
        at = e;
        there = rw (get_elem?-drop, back) at f.there;
        clear = f.clear;
        in_word = f.in_word;
        number = refl;
        in_map = f.in_map;
        result = refl;
      }

  Scanned-step :
      (n block word : ℕ) {r : Run (ℕ × Store)}
      → (Seen n (next_block m which block) 0 → Seen (suc n) block word)
      → Scanned n (next_block m which block) 0 r
      → Scanned (suc n) block word r
  Scanned-step n block word f (hit b st' k) = hit b st' k
  Scanned-step n block word f (miss k) = miss (f k)

  pub scan_blocks-suc :
      (n block word : ℕ) (ws : List ℕ)
      → get_block st m.devno (first_block m which + block) ≡ map_block ws
      → scan_blocks m which (suc n) block word st
        ≡ settle m which block ws st
            (scan_blocks m which n (next_block m which block) 0 st)
            (scan_words (block * m.bitchunks_per_block) (map_bits m which) word (drop word ws))
  unfolding scan_blocks
  scan_blocks-suc n block word ws e = rw e refl

  module _ (mapped : IsMapped m which st) where
    pub scan_blocks-Scanned :
        (n block word : ℕ)
        → block < bit_blocks m which
        → Scanned n block word (scan_blocks m which n block word st)
    unfolding settle
    scan_blocks-Scanned zero block word h =
        unfold scan_blocks in miss (λ t d p q. absurd (omega arith))
    scan_blocks-Scanned (suc n) block word h =
        let (ws, e, len, ok) = mapped block h in
        let base = block * m.bitchunks_per_block in
        rw (scan_blocks-suc n block word ws e)
          (elim (Option-cases (scan_words base (map_bits m which) word (drop word ws))) [
            | inr (s, found) ↦
                let f = scan_words-Found _ _ _ _ s (IsWords-drop word ws ok) found in
                rw found (hit _ _ (Found-Marked block word ws s h e f))
            | inl nothing ↦ rw nothing (
                Scanned-step n block word (Seen-step n block word ws h e ok nothing)
                  (scan_blocks-Scanned n (next_block m which block) 0 (ground arith)))
          ])
