-- ===== src/Classes/Touched.antt =====
-- A step of cf.c that changes one page, and counters, but no setting.
use compact_fit.Base.{ℕ, ◌≡◌, refl, ap, sym, ◌∙◌, arith, true, false, ◌==◌}
use compact_fit.Page.{Page}
use compact_fit.State.{Cf, set_page}
use compact_fit.State.Kept.{IsKept}
use compact_fit.FreePages.Keeps.{reflag}
use compact_fit.Classes.Refiles.{Refiles}

-- The page at `p` is `r` but for its list flags.
pub record IsTouched (s : Cf) (p : ℕ) (r : Page) (t : Cf) : Type 0 where
  pub globals : t.globals ≡ s.globals
  pub block_size : (sc : ℕ) → (t.size_class sc).block_size ≡ (s.size_class sc).block_size
  pub bound :
      (sc : ℕ)
      → (t.size_class sc).partial_compaction_bound ≡ (s.size_class sc).partial_compaction_bound
  pub others : (q : ℕ) → (p == q) ≡ false → t.page q ≡ s.page q
  pub content : t.page p ≡ record r { list_flags = (t.page p).list_flags }

pub set_page-IsTouched : (s : Cf) (p : ℕ) (r : Page) → IsTouched s p r (set_page s p r)
set_page-IsTouched s p r =
    let here : (p == p) ≡ true = ground arith in
    record {
      globals = refl;
      block_size = λ sc. refl;
      bound = λ sc. refl;
      others = λ q e. rw e refl;
      content = rw here refl;
    }

pub refiled-IsTouched :
    (s : Cf) (p : ℕ) (r : Page) (t : Cf) (flags : ℕ) (u : Cf)
    → IsTouched s p r t
    → Refiles t (reflag t.page p flags) u
    → IsTouched s p r u
refiled-IsTouched s p r t flags u first then =
    let here : (p == p) ≡ true = ground arith in
    let found : u.page p ≡ record (t.page p) { list_flags = flags } =
      ap (λ (pages : ℕ → Page). pages p) then.pages ∙ rw here refl in
    record {
      globals = then.globals ∙ first.globals;
      block_size = λ sc. then.block_size sc ∙ first.block_size sc;
      bound = λ sc. then.bound sc ∙ first.bound sc;
      others = λ q e. ap (λ (pages : ℕ → Page). pages q) then.pages ∙ rw e (first.others q e);
      content =
          found
          ∙ ap (λ (q : Page). record q { list_flags = flags }) first.content
          ∙ ap (λ n. record r { list_flags = n }) (sym (ap (λ (q : Page). q.list_flags) found));
    }

pub itself-IsTouched : (s : Cf) (p : ℕ) → IsTouched s p (s.page p) s
itself-IsTouched s p = record {
  globals = refl;
  block_size = λ sc. refl;
  bound = λ sc. refl;
  others = λ q e. refl;
  content = refl;
}

-- The page is changed in a way that does not look at its list flags.
pub changed-IsTouched :
    (s : Cf) (p : ℕ) (r : Page) (t : Cf) (f : Page → Page)
    → ((q : Page) (flags : ℕ)
        → f (record q { list_flags = flags }) ≡ record (f q) { list_flags = flags })
    → IsTouched s p r t
    → IsTouched s p (f r) (set_page t p (f (t.page p)))
changed-IsTouched s p r t f blind first =
    let u = set_page t p (f (t.page p)) in
    let flags = (t.page p).list_flags in
    let here : (p == p) ≡ true = ground arith in
    let found : u.page p ≡ record (f r) { list_flags = flags } =
      rw here (ap f first.content ∙ blind r flags) in
    record {
      globals = first.globals;
      block_size = first.block_size;
      bound = first.bound;
      others = λ q e. rw e (first.others q e);
      content =
          found
          ∙ ap (λ n. record (f r) { list_flags = n }) (sym (ap (λ (q : Page). q.list_flags) found));
    }

pub kept-IsTouched :
    (s : Cf) (p : ℕ) (r : Page) (t u : Cf)
    → IsTouched s p r t
    → IsKept t t.page u
    → IsTouched s p r u
kept-IsTouched s p r t u first kept = record {
  globals = kept.same_globals ∙ first.globals;
  block_size = λ sc. ap (λ c. (c sc).block_size) kept.same_classes ∙ first.block_size sc;
  bound = λ sc. ap (λ c. (c sc).partial_compaction_bound) kept.same_classes ∙ first.bound sc;
  others = λ q e. ap (λ (pages : ℕ → Page). pages q) kept.same_pages ∙ first.others q e;
  content = rw (kept.same_pages) first.content;
}
