-- ===== src/Fsck/Bits.antt =====
-- How a check ends, and which bits of a map are set.
use minixfs_old.Base.{
  ℕ, zero, suc, ◌/◌, ◌%◌, ◌≡◌, ◌≢◌, refl, sym, ap, ◌∙◌, subst, Bool, true, false, Option, none,
  some, List, ◌∷◌, ◌↔◌, ◌⊎◌, inl, inr, arith, ◌==◌, if◌then◌else◌, get_elem?, get_elem?-set_self,
  get_elem?-set_ne, get_elem?-bound, set, Bool-cases, ==→eq, ==→ne, ne→==, IsIn,
}
use minixfs_old.Bitmap.Word.{test_bit, set_bit, test_bit-set_bit}
use minixfs_old.Fsck.{Check, finished, stop, out_of_fuel, ◌>>=◌, or_stop, bitset, setbit}

eq→== : (a b : ℕ) → a ≡ b → (a == b) ≡ true
eq→== a b e = ground arith

-- A check has fuel enough, and what it returns satisfies a predicate.
abbrev pub Ends {ℓ} : {A : Type ℓ} → (A → Type 0) → Check A → Type 0
Ends P (finished a) = P a
Ends P stop = Unit
Ends P out_of_fuel = ⊥

pub Ends-bind {ℓ κ} :
    {A : Type ℓ} {B : Type κ} (P : A → Type 0) (Q : B → Type 0) (m : Check A) (f : A → Check B)
    → Ends P m
    → ((a : A) → P a → Ends Q (f a))
    → Ends Q (m >>= f)
Ends-bind P Q (finished a) f p q = q a p
Ends-bind P Q stop f p q = tt
Ends-bind P Q out_of_fuel f p q = elim p [ ]

pub Ends-mono {ℓ} :
    {A : Type ℓ} (P Q : A → Type 0) (m : Check A) → Ends P m → ((a : A) → P a → Q a) → Ends Q m
Ends-mono P Q (finished a) p q = q a p
Ends-mono P Q stop p q = tt
Ends-mono P Q out_of_fuel p q = p

pub Ends-if {ℓ} :
    {A : Type ℓ} (Q : A → Type 0) (b : Bool) (m n : Check A)
    → Ends Q m
    → Ends Q n
    → Ends Q (if b then m else n)
Ends-if Q true m n p q = p
Ends-if Q false m n p q = q

pub or_stop-Ends {ℓ κ} :
    {A : Type ℓ} {B : Type κ} (Q : B → Type 0) (o : Option A) (f : A → Check B)
    → ((a : A) → o ≡ some a → Ends Q (f a))
    → Ends Q (or_stop o >>= f)
or_stop-Ends Q none f q = tt
or_stop-Ends Q (some a) f q = q a refl

pub bitset-Ends {ℓ} :
    {B : Type ℓ} (Q : B → Type 0) (w : List ℕ) (b : ℕ) (f : Bool → Check B)
    → ((t : Bool) → bitset w b ≡ finished t → Ends Q (f t))
    → Ends Q (bitset w b >>= f)
unfolding bitset
bitset-Ends Q w b f q = at_word (get_elem? w (b / 32)) q
  where
    at_word :
        (o : Option ℕ)
        → ((t : Bool)
            → (or_stop o >>= λ k. finished (test_bit k (b % 32))) ≡ finished t
            → Ends Q (f t))
        → Ends Q ((or_stop o >>= λ k. finished (test_bit k (b % 32))) >>= f)
    at_word none q = tt
    at_word (some k) q = q (test_bit k (b % 32)) refl

pub setbit-Ends {ℓ} :
    {B : Type ℓ} (Q : B → Type 0) (w : List ℕ) (b : ℕ) (f : List ℕ → Check B)
    → ((m : List ℕ) → setbit w b ≡ finished m → Ends Q (f m))
    → Ends Q (setbit w b >>= f)
unfolding setbit
setbit-Ends Q w b f q = at_word (get_elem? w (b / 32)) q
  where
    at_word :
        (o : Option ℕ)
        → ((m : List ℕ)
            → (or_stop o >>= λ k. finished (set w (b / 32) (set_bit k (b % 32)))) ≡ finished m
            → Ends Q (f m))
        → Ends Q ((or_stop o >>= λ k. finished (set w (b / 32) (set_bit k (b % 32)))) >>= f)
    at_word none q = tt
    at_word (some k) q = q (set w (b / 32) (set_bit k (b % 32))) refl

pub finished-injective {ℓ} : {A : Type ℓ} {a b : A} → finished a ≡ finished b → a ≡ b
finished-injective e = cc e

-- A word with a bit set, in its place
set_word :
    (w : List ℕ) (b j k : ℕ)
    → get_elem? w (b / 32) ≡ some k
    → (or_stop (get_elem? (set w (b / 32) (set_bit k (b % 32))) (j / 32)) >>= λ k.
        finished (test_bit k (j % 32)))
      ≡ (if j == b
          then finished true
          else or_stop (get_elem? w (j / 32)) >>= λ k. finished (test_bit k (j % 32)))
set_word w b j k at = elim (Bool-cases (j / 32 == b / 32)) [
  | inl same ↦
      let q = ==→eq (j / 32) (b / 32) same in
      let k' = set_bit k (b % 32) in
      let there = get_elem?-set_self w (b / 32) k' (get_elem?-bound w (b / 32) k at) in
      elim (Bool-cases (j % 32 == b % 32)) [
        | inl is ↦
            let eq : j ≡ b = omega (arith, q, ==→eq (j % 32) (b % 32) is) in
            rw (q, there, test_bit-set_bit k (b % 32) (j % 32), is, eq→== j b eq) refl
        | inr other ↦
            let ne : j ≢ b =
              λ (e : j ≡ b). ==→ne (j % 32) (b % 32) other (ap (λ (n : ℕ). n % 32) e) in
            rw (q, there, test_bit-set_bit k (b % 32) (j % 32), other, ne→== j b ne, at) refl
      ]
  | inr apart ↦
      let ne : j ≢ b = λ (e : j ≡ b). ==→ne (j / 32) (b / 32) apart (ap (λ (n : ℕ). n / 32) e) in
      let off =
        get_elem?-set_ne w (b / 32) (j / 32) (set_bit k (b % 32))
          (λ e. ==→ne (j / 32) (b / 32) apart (sym e)) in
      rw (off, ne→== j b ne) refl
]

-- A map after a bit is set
pub bitset-setbit :
    (w m : List ℕ) (b j : ℕ)
    → setbit w b ≡ finished m
    → bitset m j ≡ (if j == b then finished true else bitset w j)
unfolding bitset setbit
bitset-setbit w m b j e = at_word (get_elem? w (b / 32)) refl e
  where
    at_word :
        (o : Option ℕ)
        → get_elem? w (b / 32) ≡ o
        → (or_stop o >>= λ k. finished (set w (b / 32) (set_bit k (b % 32)))) ≡ finished m
        → (or_stop (get_elem? m (j / 32)) >>= λ k. finished (test_bit k (j % 32))) ≡ (
            if j == b
            then finished true
            else or_stop (get_elem? w (j / 32)) >>= λ k. finished (test_bit k (j % 32)))
    at_word none at e = absurd (cc e)
    at_word (some k) at e =
        subst
          (λ (l : List ℕ).
            (or_stop (get_elem? l (j / 32)) >>= λ k. finished (test_bit k (j % 32))) ≡ (
              if j == b
              then finished true
              else or_stop (get_elem? w (j / 32)) >>= λ k. finished (test_bit k (j % 32))))
          (finished-injective e) (set_word w b j k at)

-- The bits that are set are those of a list.
abbrev pub Marks : List ℕ → List ℕ → Type 0
Marks w zs = (b : ℕ) → (bitset w b ≡ finished true) ↔ IsIn b zs

pub setbit-Marks :
    (w m zs : List ℕ) (b : ℕ) → Marks w zs → setbit w b ≡ finished m → Marks m (b ∷ zs)
setbit-Marks w m zs b marks e j = elim (Bool-cases (j == b)) [
  | inl is ↦ ((λ on. inl (sym (==→eq j b is))), (λ i. bitset-setbit w m b j e ∙ rw is refl))
  | inr other ↦ (
    (λ on. inr ((marks j).0 (sym (bitset-setbit w m b j e ∙ rw other refl) ∙ on))),
    (λ i. bitset-setbit w m b j e ∙ rw other (was i (==→ne j b other))),
  )
]
  where
    was : (b ≡ j) ⊎ IsIn j zs → j ≢ b → bitset w j ≡ finished true
    was (inl e) ne = absurd (ne (sym e))
    was (inr i) ne = (marks j).1 i

pub test_bit-zero : (k : ℕ) → test_bit 0 k ≡ false
unfolding test_bit
test_bit-zero zero = refl
test_bit-zero (suc k) = test_bit-zero k
