-- ===== src/Device/Answers.antt =====
-- Which requests the device in memory answers.
use minixfs_old.Base.{
  ℕ, suc, ◌≤◌, ◌≡◌, refl, sym, ap, subst, ◌∙◌, ◌⊎◌, inl, inr, none, some, Bool, true, false, List,
  [], ◌∷◌, length, drop, ltb, le→ltb, if◌then◌else◌,
}
use minixfs_old.Device.{
  Codec, Req, dev_read, dev_write, dev_close, err_enoent, copy_at, ram_write, after_write, loop,
}
use minixfs_old.Device.Bytes.{length-copy_at}

-- Requests among which no write starts beyond `n` bytes and nothing closes the device
unfoldable pub IsServed : {Buf : Type 0} → ℕ → List (Req Buf) → Type 0
IsServed n [] = Unit
IsServed n (dev_read b pos ∷ reqs) = IsServed n reqs
IsServed n (dev_write b pos ∷ reqs) = (pos ≤ n) × IsServed n reqs
IsServed n (dev_close ∷ reqs) = ⊥

if-cases :
    {A : Type 0} (t : Bool) (a b : A) → ((if t then a else b) ≡ b) ⊎ ((if t then a else b) ≡ a)
if-cases true a b = inr refl
if-cases false a b = inl refl

module _ {Buf : Type 0} (c : Codec Buf) where
  ram_write-in_range :
      (d : List ℕ) (b : Buf) (pos : ℕ)
      → pos ≤ length d
      → (ram_write c d b pos ≡ (none, copy_at d pos (c.encode b)))
        ⊎ (ram_write c d b pos ≡ (some err_enoent, copy_at d pos (c.encode b)))
  unfolding ram_write
  ram_write-in_range d b pos fits = rw (le→ltb (length d) pos fits) (
      if-cases (ltb (length (drop pos d)) (length (c.encode b)))
        (some err_enoent, copy_at d pos (c.encode b)) (none, copy_at d pos (c.encode b)))

  pub record AllAnswered (reqs : List (Req Buf)) (d : List ℕ) : Type 0 where
    pub answers : length ((loop c reqs d).0) ≡ length reqs
    pub same_size : length ((loop c reqs d).1) ≡ length d

  -- A write that does not end the loop, before requests that are answered
  answered-write :
      (b : Buf) (pos : ℕ) (reqs : List (Req Buf)) (d : List ℕ)
      → pos ≤ length d
      → AllAnswered reqs (copy_at d pos (c.encode b))
      → AllAnswered (dev_write b pos ∷ reqs) d
  unfolding loop
  answered-write b pos reqs d fits more =
      let onward = after_write c (λ store. loop c reqs store) in
      let same = more.same_size ∙ length-copy_at d pos (c.encode b) in
      elim (ram_write-in_range d b pos fits) [
        | inl eq ↦ record {
          answers = ap (λ w. length ((onward w).0)) eq ∙ ap suc more.answers;
          same_size = ap (λ w. length ((onward w).1)) eq ∙ same;
        }
        | inr eq ↦ record {
          answers = ap (λ w. length ((onward w).0)) eq ∙ ap suc more.answers;
          same_size = ap (λ w. length ((onward w).1)) eq ∙ same;
        }
      ]

  -- The device in memory takes requests among which no write starts beyond its end and nothing
  -- closes it. Then it answers every one, reads beyond its end and writes that do not fit included,
  -- and is as long afterwards as it was.
  pub loop-answers :
      (reqs : List (Req Buf)) (d : List ℕ) → IsServed (length d) reqs → AllAnswered reqs d
  unfolding loop IsServed
  loop-answers [] d ok = record { answers = refl; same_size = refl }
  loop-answers (dev_read b pos ∷ reqs) d ok =
      let more = loop-answers reqs d ok in
      record { answers = ap suc more.answers; same_size = more.same_size }
  loop-answers (dev_write b pos ∷ reqs) d (fits, ok) = answered-write b pos reqs d fits (
      loop-answers reqs (copy_at d pos (c.encode b))
        (subst (λ n. IsServed n reqs) (sym (length-copy_at d pos (c.encode b))) ok))
  loop-answers (dev_close ∷ reqs) d ok = absurd ok
