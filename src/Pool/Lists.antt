-- ===== src/Pool/Lists.antt =====
-- Lists of items and of buckets that lie in the words of cf.c, and what keeps them as they are.
use compact_fit.Base.{ℕ, suc, ◌+◌, ◌<◌, ◌≡◌, arith, List, [], ◌∷◌, ◌++◌, ◌==◌, if◌then◌else◌, false}
use compact_fit.ListHead.Without.{length}

abbrev pub tick : ℕ → ℕ → ℕ
tick c x = if c == x then 1 else 0

-- How often `c` is in a list.
abbrev pub count : ℕ → List ℕ → ℕ
count c [] = 0
count c (x ∷ xs) = tick c x + count c xs

-- The address of a bucket, and its items.
abbrev pub Bucket : Type 0
Bucket = ℕ × List ℕ

abbrev pub items : ℕ → List Bucket → ℕ
items c [] = 0
items c ((h, xs) ∷ bs) = count c xs + items c bs

abbrev pub heads : ℕ → List Bucket → ℕ
heads c [] = 0
heads c ((h, xs) ∷ bs) = tick c h + heads c bs

abbrev pub number : List Bucket → ℕ
number [] = 0
number (b ∷ bs) = suc (number bs)

-- The words through which items and buckets are linked: from an item to the next, from a bucket to
-- its first item, and from a bucket to the next.
pub record Words : Type 0 where
  pub link : ℕ → ℕ
  pub begins : ℕ → ℕ
  pub next : ℕ → ℕ

-- From `a` the links lead through the items.
abbrev pub Leads : (ℕ → ℕ) → ℕ → List ℕ → Type 0
Leads link a [] = Unit {0}
Leads link a (x ∷ xs) = (a ≡ x) × Leads link (link x) xs

-- From `a` to `b` lead buckets of `n` items each.
abbrev pub Chained : Words → ℕ → ℕ → List Bucket → ℕ → Type 0
Chained w n a [] b = a ≡ b
Chained w n a ((h, xs) ∷ bs) b =
    (a ≡ h) × (Leads w.link (w.begins h) xs × (length xs ≡ n)) × Chained w n (w.next h) bs b

abbrev pub IsLast : List Bucket → ℕ → Type 0
IsLast [] last = Unit {0}
IsLast ((h, xs) ∷ []) last = h ≡ last
IsLast (b ∷ b' ∷ bs) last = IsLast (b' ∷ bs) last

pub Leads-frame :
    (link link' : ℕ → ℕ) (a : ℕ) (xs : List ℕ)
    → Leads link a xs
    → ((c : ℕ) → 0 < count c xs → link' c ≡ link c)
    → Leads link' a xs
Leads-frame link link' a [] h same = tt
Leads-frame link link' a (x ∷ xs) h same = (
  h.0,
  Leads-frame link link' (link' x) xs (rw (same x (ground arith)) h.1)
      (λ c i. same c (omega (arith, i))),
)

-- The same links between these items, and the same words in these buckets.
pub record Agree (w w' : Words) (bs : List Bucket) : Type 0 where
  pub links : (c : ℕ) → 0 < items c bs → w'.link c ≡ w.link c
  pub begin : (h : ℕ) → 0 < heads h bs → w'.begins h ≡ w.begins h
  pub nexts : (h : ℕ) → 0 < heads h bs → w'.next h ≡ w.next h

later :
    {w w' : Words} {h : ℕ} {xs : List ℕ} {bs : List Bucket}
    → Agree w w' ((h, xs) ∷ bs)
    → Agree w w' bs
later same = record {
  links = λ c i. same.links c (omega (arith, i));
  begin = λ c i. same.begin c (omega (arith, i));
  nexts = λ c i. same.nexts c (omega (arith, i));
}

bucket_frame :
    (w w' : Words) (n h : ℕ) (xs : List ℕ) (bs : List Bucket)
    → ((c : ℕ) → 0 < items c ((h, xs) ∷ bs) → w'.link c ≡ w.link c)
    → w'.begins h ≡ w.begins h
    → Leads w.link (w.begins h) xs × (length xs ≡ n)
    → Leads w'.link (w'.begins h) xs × (length xs ≡ n)
bucket_frame w w' n h xs bs links begin (leads, full) = (
  rw begin (Leads-frame w.link w'.link (w.begins h) xs leads (λ c i. links c (omega (arith, i)))),
  full,
)

pub Chained-frame :
    (w w' : Words) (n a : ℕ) (bs : List Bucket) (b : ℕ)
    → Chained w n a bs b
    → Agree w w' bs
    → Chained w' n a bs b
Chained-frame w w' n a [] b h same = h
Chained-frame w w' n a ((h, xs) ∷ bs) b (at, bucket, rest) same = (
  at,
  bucket_frame w w' n h xs bs same.links (same.begin h (ground arith)) bucket,
  Chained-frame w w' n (w'.next h) bs b (rw (same.nexts h (ground arith)) rest) (later same),
)

pub last_listed : (bs : List Bucket) (last : ℕ) → 0 < number bs → IsLast bs last → 0 < heads last bs
last_listed [] last some_there at = absurd (omega arith)
last_listed ((h, xs) ∷ []) last some_there at = ground arith
last_listed ((h, xs) ∷ b ∷ bs) last some_there at =
    let rest = last_listed (b ∷ bs) last (omega arith) at in omega (arith, rest)

-- The last bucket's word is written, and the chain leads on to `b`.
pub Chained-relink :
    (w w' : Words) (n a : ℕ) (bs : List Bucket) (last e b : ℕ)
    → Chained w n a bs e
    → 0 < number bs
    → IsLast bs last
    → ((h : ℕ) → heads h bs < 2)
    → ((c : ℕ) → 0 < items c bs → w'.link c ≡ w.link c)
    → ((h : ℕ) → 0 < heads h bs → w'.begins h ≡ w.begins h)
    → ((h : ℕ) → (h == last) ≡ false → 0 < heads h bs → w'.next h ≡ w.next h)
    → w'.next last ≡ b
    → Chained w' n a bs b
Chained-relink w w' n a [] last e b chain some_there at apart links begin nexts to =
    absurd (omega arith)
Chained-relink w w' n a ((h, xs) ∷ []) last e b (start, bucket, rest) some_there at apart links
      begin nexts to =
    (start, bucket_frame w w' n h xs [] links (begin h (ground arith)) bucket, rw at to)
Chained-relink w w' n a ((h, xs) ∷ (k, ys) ∷ bs) last e b (start, bucket, rest) some_there at apart
      links begin nexts to =
    let listed = last_listed ((k, ys) ∷ bs) last (omega arith) at in
    let once = apart last in
    let other : (h == last) ≡ false = ground (arith, listed, once) in
    let same : w'.next h ≡ w.next h = nexts h other (ground arith) in
    (
      start,
      bucket_frame w w' n h xs ((k, ys) ∷ bs) links (begin h (ground arith)) bucket,
      Chained-relink w w' n (w'.next h) ((k, ys) ∷ bs) last e b (rw same rest) (omega arith) at
          (λ c. let t = apart c in omega (arith, t)) (λ c i. links c (omega (arith, i)))
          (λ c i. begin c (omega (arith, i))) (λ c ne i. nexts c ne (omega (arith, i))) to,
    )

pub Chained-append :
    (w : Words) (n a : ℕ) (bs : List Bucket) (b : ℕ) (bs' : List Bucket) (c : ℕ)
    → Chained w n a bs b
    → Chained w n b bs' c
    → Chained w n a (bs ++ bs') c
Chained-append w n a [] b bs' c h k = rw h k
Chained-append w n a ((x, xs) ∷ bs) b bs' c h k =
    (h.0, h.1, Chained-append w n (w.next x) bs b bs' c h.2 k)

pub items-append : (c : ℕ) (bs bs' : List Bucket) → items c (bs ++ bs') ≡ items c bs + items c bs'
items-append c [] bs' = omega arith
items-append c ((h, xs) ∷ bs) bs' = omega (arith, items-append c bs bs')

pub heads-append : (c : ℕ) (bs bs' : List Bucket) → heads c (bs ++ bs') ≡ heads c bs + heads c bs'
heads-append c [] bs' = omega arith
heads-append c ((h, xs) ∷ bs) bs' = omega (arith, heads-append c bs bs')
