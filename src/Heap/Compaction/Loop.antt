-- ===== src/Heap/Compaction/Loop.antt =====
-- The copying loops of do_compaction in cf.c.
use compact_fit.Base.{
  ℕ, zero, suc, ◌+◌, ◌-◌, ◌*◌, ◌/◌, ◌^◌, ◌<◌, ◌≤◌, ◌≡◌, ◌⊎◌, inl, inr, refl, ap, sym, ◌∙◌, arith,
  Bool, true, false, ◌==◌, if◌then◌else◌, Bool-cases,
}
use compact_fit.Page.{u32}
use compact_fit.State.{Cf, Globals, int_lt}
use compact_fit.Heap.Compaction.{
  Marks, Copying, copy_words, cpy_size, copy_step, copy_on, copy_loop, copy_all,
}

-- Outside the words from dest on, copying n words changes nothing.
pub copy_words-other :
    (n dest src : ℕ) (mem : ℕ → ℕ) (a : ℕ)
    → (a < dest) ⊎ (dest + 4 * n ≤ a)
    → copy_words n dest src mem a ≡ mem a
unfolding copy_words
copy_words-other zero dest src mem a out = refl
copy_words-other (suc n) dest src mem a out =
    let rest =
      copy_words-other n (dest + 4) (src + 4) (λ b. if dest == b then mem src else mem b) a in
    ground arith

-- Copying n words between two ranges that do not overlap puts each word of the source at its place
-- in the destination.
pub copy_words-copied :
    (n dest src : ℕ) (mem : ℕ → ℕ) (i : ℕ)
    → (src + 4 * n ≤ dest) ⊎ (dest + 4 * n ≤ src)
    → i < n
    → copy_words n dest src mem (dest + 4 * i) ≡ mem (src + 4 * i)
unfolding copy_words
copy_words-copied zero dest src mem i apart h = omega (arith, h)
copy_words-copied (suc n) dest src mem zero apart h =
    let first =
      copy_words-other n (dest + 4) (src + 4) (λ b. if dest == b then mem src else mem b) (dest + 0)
        (inl (omega arith)) in
    first ∙ ground arith
copy_words-copied (suc n) dest src mem (suc i) apart h =
    let rest =
      copy_words-copied n (dest + 4) (src + 4) (λ b. if dest == b then mem src else mem b) i
        (omega arith) (omega arith) in
    ap (λ (t : ℕ). copy_words n (dest + 4) (src + 4) (λ b. if dest == b then mem src else mem b) t)
      (omega arith)
    ∙ rest
    ∙ ground arith

-- What the other threads do leaves the settings of `cf_init` alone.
unfoldable pub KeepsSettings : (Cf → Cf) → Type 0
KeepsSettings others = (s : Cf) → (others s).globals ≡ s.globals

copy_step-rem :
    (others : Cf → Cf) (m : Marks) (c : Copying)
    → c.heap.globals.incremental_memcpy < 2 ^ 31
    → 0 < c.rem_size
    → c.rem_size < 2 ^ 31
    → (copy_step others m c).rem_size < c.rem_size
unfolding copy_step cpy_size
copy_step-rem others m c inc positive small = ground arith

copy_step-globals :
    (others : Cf → Cf) (m : Marks) (c : Copying)
    → KeepsSettings others
    → (copy_step others m c).heap.globals ≡ c.heap.globals
unfolding copy_step KeepsSettings
copy_step-globals others m c keeps =
    elim (Bool-cases (int_lt 0 (u32 (c.rem_size + 2 ^ 32 - cpy_size c.heap c.rem_size)))) [
      | inl e ↦ rw e (keeps _)
      | inr e ↦ rw e refl
    ]

-- The state after the loop is one in which the loop does not go on.
copy_loop-enough :
    (others : Cf → Cf) (m : Marks) (n : ℕ) (c : Copying)
    → KeepsSettings others
    → c.heap.globals.incremental_memcpy < 2 ^ 31
    → c.rem_size ≤ n
    → c.rem_size < 2 ^ 31
    → (copy_on (copy_loop others m n c) ≡ false) × ((copy_loop others m n c).rem_size ≤ c.rem_size)
unfolding copy_loop copy_on
copy_loop-enough others m zero c keeps inc le small = (ground arith, omega arith)
copy_loop-enough others m (suc n) c keeps inc le small = elim (Bool-cases (copy_on c)) [
  | inl e ↦
      let positive : 0 < c.rem_size = ground arith in
      let less = copy_step-rem others m c inc positive small in
      let same : (copy_step others m c).heap.globals ≡ c.heap.globals =
        copy_step-globals others m c keeps in
      let inc' : (copy_step others m c).heap.globals.incremental_memcpy < 2 ^ 31 =
        omega (arith, ap (λ (g : Globals). g.incremental_memcpy) same) in
      let (off, rem) =
        copy_loop-enough others m n (copy_step others m c) keeps inc' (omega arith) (omega arith) in
      (rw e off, rw e (omega (arith, rem, less)))
  | inr e ↦ (rw e e, rw e (omega arith))
]

-- The inner loop ends: with as many rounds as there are bytes to copy it stops by itself, aborted or
-- with nothing left. The block is smaller than 2 ^ 31 bytes, `incremental_memcpy` is not negative,
-- and no thread changes the settings of `cf_init`.
pub copy_loop-ends :
    (others : Cf → Cf) (m : Marks) (c : Copying)
    → KeepsSettings others
    → c.heap.globals.incremental_memcpy < 2 ^ 31
    → c.rem_size < 2 ^ 31
    → ((copy_loop others m c.rem_size c).rem_size ≡ 0)
      ⊎ ((copy_loop others m c.rem_size c).aborted ≡ true)
unfolding copy_on
copy_loop-ends others m c keeps inc small =
    let (off, rem) = copy_loop-enough others m c.rem_size c keeps inc (omega arith) small in
    let r = copy_loop others m c.rem_size c in
    elim (Bool-cases r.aborted) [ inl e ↦ inr e | inr e ↦ inl (ground arith) ]

copy_all-done :
    (others : Cf → Cf) (m : Marks) (k : ℕ) (c : Copying)
    → c.rem_size ≡ 0
    → c.aborted ≡ false
    → copy_all others m k c ≡ c
unfolding copy_all copy_loop
copy_all-done others m zero c nothing going = refl
copy_all-done others m (suc k) c nothing going =
    ap (λ (n : ℕ). copy_all others m k (copy_loop others m n (record c { aborted = false })))
      nothing
    ∙ ap (λ (b : Bool). copy_all others m k (record c { aborted = b })) (sym going)
    ∙ copy_all-done others m k c nothing going

-- Rounds over `j` after one that was not aborted copy nothing: whatever `memcpy_multiplicator` is,
-- the loops do what the first round does, if that round ends with nothing left and not aborted.
pub copy_all-first :
    (others : Cf → Cf) (m : Marks) (k : ℕ) (c : Copying)
    → (copy_loop others m c.rem_size (record c { aborted = false })).rem_size ≡ 0
    → (copy_loop others m c.rem_size (record c { aborted = false })).aborted ≡ false
    → copy_all others m (suc k) c ≡ copy_loop others m c.rem_size (record c { aborted = false })
unfolding copy_all
copy_all-first others m k c nothing going =
    copy_all-done others m k (copy_loop others m c.rem_size (record c { aborted = false })) nothing
      going

-- The variables after one `memcpy` of all that is left.
unfoldable pub copied : Copying → Copying
copied c = record c {
  heap = record (c.heap) { mem = copy_words (c.rem_size / 4) c.dest c.src c.heap.mem };
  rem_size = 0;
  dest = c.dest + c.rem_size;
  src = c.src + c.rem_size;
}

cpy_size-direct : (s : Cf) (n : ℕ) → s.globals.incremental_memcpy ≡ 0 → cpy_size s n ≡ n
unfolding cpy_size
cpy_size-direct s n direct =
    let e : (s.globals.incremental_memcpy == 0) ≡ true = ground arith in rw e refl

copy_step-direct :
    (others : Cf → Cf) (m : Marks) (c : Copying)
    → c.heap.globals.incremental_memcpy ≡ 0
    → copy_step others m c ≡ copied c
unfolding copy_step copied
copy_step-direct others m c direct =
    let none_left : u32 (c.rem_size + 2 ^ 32 - c.rem_size) ≡ 0 = omega arith in
    rw (cpy_size-direct c.heap c.rem_size direct, none_left) refl

copy_loop-off :
    (others : Cf → Cf) (m : Marks) (n : ℕ) (c : Copying)
    → copy_on c ≡ false
    → copy_loop others m n c ≡ c
unfolding copy_loop
copy_loop-off others m zero c off = refl
copy_loop-off others m (suc n) c off = rw off refl

copy_loop-direct :
    (others : Cf → Cf) (m : Marks) (n : ℕ) (c : Copying)
    → c.heap.globals.incremental_memcpy ≡ 0
    → copy_on c ≡ true
    → copy_loop others m (suc n) c ≡ copied c
unfolding copy_loop copied copy_on
copy_loop-direct others m n c direct on =
    let step = copy_step-direct others m c direct in
    let rest : copy_loop others m n (copied c) ≡ copied c =
      copy_loop-off others m n (copied c) refl in
    rw (on, step) rest

-- With `incremental_memcpy` 0 the loops are one `memcpy` of the block, not aborted, for every positive
-- `memcpy_multiplicator` and block smaller than 2 ^ 31 bytes.
pub copy_all-direct :
    (others : Cf → Cf) (m : Marks) (k : ℕ) (c : Copying)
    → c.heap.globals.incremental_memcpy ≡ 0
    → 0 < c.rem_size
    → c.rem_size < 2 ^ 31
    → copy_all others m (suc k) c ≡ copied (record c { aborted = false })
unfolding copied copy_on
copy_all-direct others m k c direct positive small =
    let c' : Copying = record c { aborted = false } in
    let on : copy_on c' ≡ true = ground arith in
    let n : c.rem_size ≡ suc (c.rem_size - 1) = omega arith in
    let once : copy_loop others m c.rem_size c' ≡ copied c' =
      ap (λ (t : ℕ). copy_loop others m t c') n
      ∙ copy_loop-direct others m (c.rem_size - 1) c' direct on in
    copy_all-first others m k c (ap (λ (r : Copying). r.rem_size) once)
      (ap (λ (r : Copying). r.aborted) once)
    ∙ once
