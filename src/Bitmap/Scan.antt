-- ===== src/Bitmap/Scan.antt =====
-- The inner loop of alloc_bit: what it finds in the words of one block, and what is known when it
-- finds nothing.
use minixfs_old.Base.{
  ℕ, zero, suc, ◌+◌, ◌-◌, ◌*◌, ◌^◌, ◌≤◌, ◌<◌, ◌≡◌, refl, ◌≢◌, true, false, none, some, List, [],
  ◌∷◌, arith, ◌==◌, Bool-cases, inl, inr, ==→eq, ==→ne, get_elem?, set, drop, get_elem?-drop,
}
use minixfs_old.Bitmap.{Slot, scan_words}
use minixfs_old.Bitmap.Word.{max_uint16, test_bit, first_clear, first_clear_room, test_bit-ones}

-- Each word is a uint16.
abbrev pub IsWords : List ℕ → Type 0
IsWords ws = (j w : ℕ) → get_elem? ws j ≡ some w → w ≤ max_uint16

-- The slot is a clear bit of word `index` of the words that start at index i, inside the map.
pub record Found (base bits i : ℕ) (nums : List ℕ) (s : Slot) : Type 0 where
  pub after : i ≤ s.index
  pub there : get_elem? nums (s.index - i) ≡ some s.word
  pub clear : test_bit s.word s.bit ≡ false
  pub in_word : s.bit < 16
  pub in_map : base + s.index * 16 + s.bit < bits

Found-later :
    (base bits i num : ℕ) (nums : List ℕ) (s : Slot)
    → Found base bits (i + 1) nums s
    → Found base bits i (num ∷ nums) s
Found-later base bits i num nums s f =
    let e : s.index - i ≡ suc (s.index - (i + 1)) = omega (arith, f.after) in
    record {
      after = omega (arith, f.after);
      there = rw e f.there;
      clear = f.clear;
      in_word = f.in_word;
      in_map = f.in_map;
    }

pub scan_words-Found :
    (base bits i : ℕ) (nums : List ℕ) (s : Slot)
    → IsWords nums
    → scan_words base bits i nums ≡ some s
    → Found base bits i nums s
unfolding scan_words
scan_words-Found base bits i [] s h e = cc
scan_words-Found base bits i (num ∷ nums) s h e = elim (Bool-cases (num == max_uint16)) [
  | inl full ↦
      Found-later base bits i num nums s
        (scan_words-Found base bits (i + 1) nums s (λ j. h (suc j)) (rw full at e))
  | inr room ↦
      let r = first_clear_room num (h 0 num refl) (==→ne _ _ room) in ground (arith, r.0, r.1)
]

-- A word before the loop's stop: the full word, or the word at which the loop broke.
room_case :
    (base bits i num w k : ℕ) (nums : List ℕ) (j : ℕ)
    → num ≤ max_uint16
    → num ≢ max_uint16
    → bits ≤ base + i * 16 + first_clear 16 num 0
    → get_elem? (num ∷ nums) j ≡ some w
    → k < 16
    → base + (i + j) * 16 + k < bits
    → test_bit w k ≡ true
room_case base bits i num w k nums zero h ne stop g p q =
    let r = first_clear_room num h ne in let e : num ≡ w = cc in rw (← e) (r.2 k (omega arith))
room_case base bits i num w k nums (suc j) h ne stop g p q =
    let r = first_clear_room num h ne in absurd (omega (arith, r.0))

pub scan_words-none :
    (base bits i : ℕ) (nums : List ℕ)
    → IsWords nums
    → scan_words base bits i nums ≡ none
    → (j w k : ℕ) → get_elem? nums j ≡ some w
    → k < 16
    → base + (i + j) * 16 + k < bits
    → test_bit w k ≡ true
unfolding scan_words
scan_words-none base bits i [] h e j w k g p q = ground arith
scan_words-none base bits i (num ∷ nums) h e j w k g p q = elim (Bool-cases (num == max_uint16)) [
  | inl full ↦
      let ih = scan_words-none base bits (i + 1) nums (λ m. h (suc m)) (rw full at e) in
      at_full j g (==→eq _ _ full) q ih
  | inr room ↦
      let stop : bits ≤ base + i * 16 + first_clear 16 num 0 = ground arith in
      room_case base bits i num w k nums j (h 0 num refl) (==→ne _ _ room) stop g p q
]
  where
    at_full :
        (j : ℕ)
        → get_elem? (num ∷ nums) j ≡ some w
        → num ≡ max_uint16
        → base + (i + j) * 16 + k < bits
        → ((m v l : ℕ)
            → get_elem? nums m ≡ some v
            → l < 16
            → base + (i + 1 + m) * 16 + l < bits
            → test_bit v l ≡ true)
        → test_bit w k ≡ true
    at_full zero g full q ih = let e : w ≡ 2 ^ 16 - 1 = ground arith in rw e (test_bit-ones 16 k p)
    at_full (suc m) g full q ih = ih m w k g p (omega arith)

pub IsWords-drop : (n : ℕ) (ws : List ℕ) → IsWords ws → IsWords (drop n ws)
IsWords-drop n ws h j w e = h (n + j) w (rw get_elem?-drop at e)

pub IsWords-set : (i v : ℕ) (ws : List ℕ) → v ≤ max_uint16 → IsWords ws → IsWords (set ws i v)
IsWords-set i v [] p h j w e = ground arith
IsWords-set zero v (x ∷ ws) p h zero w e = let same : v ≡ w = cc in rw (← same) p
IsWords-set zero v (x ∷ ws) p h (suc j) w e = h (suc j) w e
IsWords-set (suc i) v (x ∷ ws) p h zero w e = h zero w e
IsWords-set (suc i) v (x ∷ ws) p h (suc j) w e = IsWords-set i v ws p (λ k u. h (suc k) u) j w e
