-- ===== src/Heap/Init/Starts.antt =====
-- The state of cf.c after cf_init and init_thread.
use compact_fit.Base.{
  ℕ, ◌+◌, ◌^◌, ◌||◌, ◌==◌, false, some, ◌<◌, ◌≡◌, refl, ap, sym, ◌∙◌, arith, Bool-cases, inl, inr,
  [],
}
use mathlib.Core.Path.{subst}
use compact_fit.Page.{Page}
use compact_fit.SizeMap.Sized.{get_page_block_size_of_index-bounds}
use compact_fit.State.{Cf, Globals, SizeClass, ThreadData}
use compact_fit.State.Kept.{itself}
use compact_fit.FreePages.{init_free_pages_list}
use compact_fit.FreePages.Starts.{init_free_pages_list-Reflags}
use compact_fit.AbstractAddress.{init_free_aa_list}
use compact_fit.AbstractAddress.Starts.{init_free_aa_list-IsKept}
use compact_fit.Classes.{init_size_class_instance}
use compact_fit.Classes.Init.{
  classes_at, fresh_class, number_of, init_size_class_instance-IsFiled,
  init_size_class_instance-rest,
}
use compact_fit.Heap.Init.{Settings, Regions, globals_of, sizeof_thread_data, cf_init, init_thread}
use compact_fit.Heap.Invariant.{IsHeap, IsKept-IsHeap, IsClean}
use compact_fit.Heap.Invariant.Touched.{reflagged-IsClean}

-- Arguments of cf_init that turn compaction on, at once and not in increments, and by which it does
-- not divide by zero.
pub record IsDirect (c : Settings) : Type 0 where
  pub at_once : c.inc ≡ 0
  pub rounds : 0 < c.mult
  pub bound_positive : 0 < c.k
  pub bound_int : c.k < 2 ^ 31
  pub some_aas : 0 < c.local_aas
  pub some_pages : 0 < c.local_pages

-- No block of any page is in use, and the settings are those of `c`.
record IsReady (c : Settings) (s : Cf) : Type 0 where
  inc : s.globals.incremental_memcpy ≡ c.inc
  mult : s.globals.memcpy_multiplicator ≡ c.mult
  k : s.globals.partial_compaction_bound ≡ c.k
  clean : (p : ℕ) → IsClean (s.page p)

made-IsHeap :
    (c : Settings) (s : Cf) (base : ℕ)
    → IsDirect c
    → IsReady c s
    → IsHeap (init_size_class_instance s base) (classes_at base) (λ h. [])
made-IsHeap c s base direct ready =
    let t = init_size_class_instance s base in
    let (filed, made) = init_size_class_instance-IsFiled s base in
    let (globals, pages, _) = init_size_class_instance-rest s base in
    let cleared =
      λ (p : ℕ). subst (λ (page : ℕ → Page). IsClean (page p)) (sym pages) (ready.clean p) in
    record {
      filed = filed;
      direct = ap (λ (g : Globals). g.incremental_memcpy) globals ∙ ready.inc ∙ direct.at_once;
      rounds =
          omega (
            arith,
            ap (λ (g : Globals). g.memcpy_multiplicator) globals,
            ready.mult,
            direct.rounds,
          );
      set = λ sc here.
          let (k, small, at) = number_of base sc here in
          let class : t.size_class sc ≡ fresh_class s k = ap t.size_class at ∙ made k small in
          let size = ap (λ (d : SizeClass). d.block_size) class in
          let bound = ap (λ (d : SizeClass). d.partial_compaction_bound) class in
          let fits = get_page_block_size_of_index-bounds k small in
          record {
            least = omega (arith, size, fits.0);
            most = omega (arith, size, fits.1);
            bound_positive = omega (arith, bound, ready.k, direct.bound_positive);
            bound_int = omega (arith, bound, ready.k, direct.bound_int);
          };
      placed = λ h x here i. absurd (ground (arith, i));
      no_source = λ sc here. refl;
      no_emptying = λ sc here. refl;
      bounded = λ sc here. omega arith;
      full = λ sc p here i. absurd (ground (arith, i));
      partly = λ sc p here i. absurd (ground (arith, i));
      clean = λ p fresh. cleared p;
      settled = λ p. (cleared p).settled;
      owned = λ p some_used. absurd (omega (arith, some_used, (cleared p).none_used));
    }

-- What cf_init does before it makes the size-classes.
lists : Settings → Regions → Cf → Cf
lists c r s = init_free_pages_list (init_free_aa_list (record s { globals = globals_of c r }))

lists-IsReady :
    (c : Settings) (r : Regions) (s : Cf) → ((p : ℕ) → IsClean (s.page p)) → IsReady c (lists c r s)
unfolding lists globals_of
lists-IsReady c r s clean =
    let s0 = record s { globals = globals_of c r } in
    let s1 = init_free_aa_list s0 in
    let kept = init_free_aa_list-IsKept s0 in
    let flagged = init_free_pages_list-Reflags s1 in
    let same : (lists c r s).globals ≡ globals_of c r = flagged.settings ∙ kept.same_globals in
    record {
      inc = ap (λ (g : Globals). g.incremental_memcpy) same;
      mult = ap (λ (g : Globals). g.memcpy_multiplicator) same;
      k = ap (λ (g : Globals). g.partial_compaction_bound) same;
      clean = λ p. subst IsClean (sym (flagged.contents p)) (
          reflagged-IsClean (s1.page p) _
            (subst (λ (page : ℕ → Page). IsClean (page p)) (sym kept.same_pages) (clean p)));
    }

remade-IsReady :
    (c : Settings) (s : Cf) (base : ℕ) → IsReady c s → IsReady c (init_size_class_instance s base)
remade-IsReady c s base ready =
    let (globals, pages, _) = init_size_class_instance-rest s base in
    record {
      inc = ap (λ (g : Globals). g.incremental_memcpy) globals ∙ ready.inc;
      mult = ap (λ (g : Globals). g.memcpy_multiplicator) globals ∙ ready.mult;
      k = ap (λ (g : Globals). g.partial_compaction_bound) globals ∙ ready.k;
      clean = λ p. subst (λ (page : ℕ → Page). IsClean (page p)) (sym pages) (ready.clean p);
    }

-- The state after cf_init.
begun : Settings → Regions → Cf → Cf
begun c r s = init_size_class_instance (lists c r s) r.global_classes

cf_init-begun :
    (c : Settings) (r : Regions) (s : Cf) → IsDirect c → cf_init c r s ≡ some (begun c r s)
unfolding cf_init begun lists
cf_init-begun c r s direct =
    let e : (c.local_aas == 0 || c.local_pages == 0) ≡ false =
      ground (arith, direct.some_aas, direct.some_pages) in
    rw e refl

begun-IsReady :
    (c : Settings) (r : Regions) (s : Cf)
    → ((p : ℕ) → IsClean (s.page p))
    → IsReady c (begun c r s) × ((begun c r s).globals.global_classes ≡ r.global_classes)
unfolding globals_of lists begun
begun-IsReady c r s clean =
    let s0 = record s { globals = globals_of c r } in
    let s1 = init_free_aa_list s0 in
    let same =
      (init_free_pages_list-Reflags s1).settings ∙ (init_free_aa_list-IsKept s0).same_globals in
    let made = init_size_class_instance-rest (lists c r s) r.global_classes in
    (
      remade-IsReady c (lists c r s) r.global_classes (lists-IsReady c r s clean),
      ap (λ (g : Globals). g.global_classes) (made.0 ∙ same),
    )

own-IsHeap :
    (c : Settings) (t : Cf) (base : ℕ)
    → IsDirect c
    → IsReady c t
    → t.thread.size_classes ≡ base
    → let u = init_size_class_instance t base in
      IsHeap u (classes_at u.thread.size_classes) (λ h. [])
own-IsHeap c t base direct ready at =
    let kept = init_size_class_instance-rest t base in
    let same : (init_size_class_instance t base).thread.size_classes ≡ base =
      ap (λ (d : ThreadData). d.size_classes) kept.2 ∙ at in
    subst (λ (b : ℕ). IsHeap (init_size_class_instance t base) (classes_at b) (λ h. [])) (sym same)
      (made-IsHeap c t base direct ready)

-- With compaction on, at once and in at least one round, with positive numbers of local pages and
-- abstract addresses, and over pages with no block in use, cf_init succeeds, and after it and
-- init_thread the size-classes of the thread satisfy the invariant with empty rings, whether they are
-- the global ones or the thread's own, behind its data.
pub init_thread-IsHeap :
    (c : Settings) (r : Regions) (s : Cf) (thread_data : ℕ)
    → IsDirect c
    → ((p : ℕ) → IsClean (s.page p))
    → (u : Cf) × (cf_init c r s ≡ some u)
      × (let t = init_thread thread_data u in IsHeap t (classes_at t.thread.size_classes) (λ h. []))
unfolding init_thread begun
init_thread-IsHeap c r s thread_data direct clean =
    let u = begun c r s in
    let (ready, at) = begun-IsReady c r s clean in
    let heap : IsHeap u (classes_at r.global_classes) (λ h. []) =
      made-IsHeap c (lists c r s) r.global_classes direct (lists-IsReady c r s clean) in
    (
      u,
      cf_init-begun c r s direct,
      elim (Bool-cases u.globals.private_classes) [
        | inl e ↦ rw e (
            own-IsHeap c _ (thread_data + sizeof_thread_data) direct
              (record { inc = ready.inc; mult = ready.mult; k = ready.k; clean = ready.clean })
              refl)
        | inr e ↦
            rw (e, at) (IsKept-IsHeap u _ (classes_at r.global_classes) (λ h. []) (itself _) heap)
      ],
    )
