-- ===== src/Common/Dirent/Names.antt =====
-- The name of a directory entry is what stands before its first NUL byte.
use minixfs_old.Base.{
  ℕ, ◌≤◌, ◌<◌, ◌≡◌, ◌≢◌, refl, sym, ap, ◌∙◌, Bool, true, false, false≢true, ◌↔◌, get_elem?,
  get_elem?-set_self, length-set, ltb→le, ==-refl, if_yes, if_no, some, List, [], ◌∷◌, arith, ltb,
  ◌==◌, if◌then◌else◌, length, set, Bool-cases, inl, inr, ==→eq, ne→==, ltb→lt,
}
use mathlib.Core.Option.{some-injective}
use minixfs_old.Common.Data.{DiskDirent, name_max}
use minixfs_old.Common.Dirent.{rest_after, at_end, has_name, copy_bytes, set_name}

unfoldable pub until_nul : List ℕ → List ℕ
until_nul [] = []
until_nul (c ∷ b) = let rest = until_nul b in if c == 0 then [] else c ∷ rest

-- A string without NUL bytes
abbrev pub IsPlain : List ℕ → Type 0
IsPlain [] = Unit
IsPlain (c ∷ s) = (c ≢ 0) × IsPlain s

cons-injective_tail : (c d : ℕ) (b s : List ℕ) → c ∷ b ≡ d ∷ s → b ≡ s
cons-injective_tail c d b s e = ap tail_of e
  where
    tail_of : List ℕ → List ℕ
    tail_of [] = []
    tail_of (x ∷ xs) = xs

cons-injective_head : (c d : ℕ) (b s : List ℕ) → c ∷ b ≡ d ∷ s → c ≡ d
cons-injective_head c d b s e = ap head_of e
  where
    head_of : List ℕ → ℕ
    head_of [] = 0
    head_of (x ∷ xs) = x

cons≢nil : (c : ℕ) (b : List ℕ) → c ∷ b ≢ []
cons≢nil c b e = false≢true (sym (ap is_nil e))
  where
    is_nil : List ℕ → Bool
    is_nil [] = false
    is_nil (x ∷ xs) = true

at_end-until_nul : (b s : List ℕ) → IsPlain s → at_end (rest_after b s) ≡ true → until_nul b ≡ s
unfolding rest_after until_nul
at_end-until_nul [] [] plain e = refl
at_end-until_nul (c ∷ b) [] plain e = rw e refl
at_end-until_nul [] (d ∷ s) plain e = absurd (false≢true e)
at_end-until_nul (c ∷ b) (d ∷ s) (live, plain) e = elim (Bool-cases (c == d)) [
  | inl same ↦
      let eq = ==→eq c d same in
      let rest = sym (ap at_end (if_yes (c == d) _ _ same)) ∙ e in
      rw (ne→== c 0 (λ z. live (sym eq ∙ z)), at_end-until_nul b s plain rest, eq)
  | inr other ↦ absurd (false≢true (sym (ap at_end (if_no (c == d) _ _ other)) ∙ e))
]

until_nul-at_end : (b s : List ℕ) → IsPlain s → until_nul b ≡ s → at_end (rest_after b s) ≡ true
unfolding rest_after until_nul
until_nul-at_end [] [] plain e = refl
until_nul-at_end [] (d ∷ s) plain e = absurd (cons≢nil d s (sym e))
until_nul-at_end (c ∷ b) [] plain e = elim (Bool-cases (c == 0)) [
  | inl nul ↦ nul
  | inr byte ↦ absurd (cons≢nil c (until_nul b) (sym (if_no (c == 0) _ _ byte) ∙ e))
]
until_nul-at_end (c ∷ b) (d ∷ s) (live, plain) e = elim (Bool-cases (c == 0)) [
  | inl nul ↦ absurd (cons≢nil d s (sym e ∙ if_yes (c == 0) _ _ nul))
  | inr byte ↦
      let there = sym (if_no (c == 0) _ _ byte) ∙ e in
      let rest = until_nul-at_end b s plain (cons-injective_tail c d (until_nul b) s there) in
      rw (cons-injective_head c d (until_nul b) s there, ==-refl d, rest)
]

length-until_nul : (b : List ℕ) → length (until_nul b) ≤ length b
unfolding until_nul
length-until_nul [] = omega arith
length-until_nul (c ∷ b) = elim (Bool-cases (c == 0)) [
  | inl nul ↦ rw nul (omega arith)
  | inr byte ↦ rw byte (omega (arith, length-until_nul b))
]

-- HasName of a string without NUL bytes tells whether the name's bytes before its first NUL, or all
-- of them, are the string.
pub has_name_iff :
    (entry : DiskDirent) (s : List ℕ)
    → IsPlain s
    → has_name entry s ≡ true ↔ until_nul entry.name ≡ s
unfolding has_name
has_name_iff entry s plain = elim (Bool-cases (ltb (length entry.name) (length s))) [
  | inl long ↦ (
    λ e. absurd (false≢true (sym (if_yes _ _ _ long) ∙ e)),
    λ e. absurd (omega (arith, ltb→lt _ _ long, length-until_nul entry.name, ap length e)),
  )
  | inr fits ↦ (
    λ e. at_end-until_nul entry.name s plain (sym (if_no _ _ _ fits) ∙ e),
    λ e. if_no _ _ _ fits ∙ until_nul-at_end entry.name s plain e,
  )
]

until_nul-copy_bytes :
    (name path : List ℕ)
    → IsPlain path
    → length path ≤ length name
    → (length path < length name → get_elem? name (length path) ≡ some 0)
    → until_nul (copy_bytes name path) ≡ path
unfolding until_nul copy_bytes
until_nul-copy_bytes [] [] plain room ended = refl
until_nul-copy_bytes [] (p ∷ path) plain room ended = absurd (omega (arith, room))
until_nul-copy_bytes (n ∷ name) [] plain room ended =
    let e : n ≡ 0 = some-injective n 0 (ended (omega arith)) in rw e refl
until_nul-copy_bytes (n ∷ name) (p ∷ path) (live, plain) room ended = rw (
  ne→== p 0 live,
  until_nul-copy_bytes name path plain (omega (arith, room)) (λ q. ended (omega (arith, q))),
)

-- The name that search_dir enters for a path of at most 60 bytes without NUL is the path.
pub until_nul-set_name :
    (name path : List ℕ)
    → length name ≡ name_max
    → length path ≤ name_max
    → IsPlain path
    → until_nul (set_name name path) ≡ path
unfolding set_name
until_nul-set_name name path sixty short plain = elim (Bool-cases (ltb (length path) name_max)) [
  | inl shorter ↦ rw shorter (
      until_nul-copy_bytes (set name (length path) 0) path plain
        (rw (length-set name (length path) 0) (omega arith))
        (λ q. get_elem?-set_self name (length path) 0 (omega (arith, sixty, ltb→lt _ _ shorter))))
  | inr full ↦ rw full (
      until_nul-copy_bytes name path plain (omega arith)
        (λ q. absurd (omega (arith, q, ltb→le _ _ full))))
]

-- After the name of an entry of 60 bytes is set to a path of at most 60, HasName of another string,
-- the two without NUL bytes, tells whether it is the path.
pub has_name-set_name :
    (entry : DiskDirent) (path other : List ℕ)
    → length entry.name ≡ name_max
    → length path ≤ name_max
    → IsPlain path
    → IsPlain other
    → has_name (record entry { name = set_name entry.name path }) other ≡ true ↔ path ≡ other
has_name-set_name entry path other sixty short plain plain' =
    let e = until_nul-set_name entry.name path sixty short plain in
    let (to, from) = has_name_iff (record entry { name = set_name entry.name path }) other plain' in
    (λ h. sym e ∙ to h, λ h. from (e ∙ h))
