-- ===== src/FreePages/Starts.antt =====
-- init_free_pages_list of cf.c changes the list flags of pages, and no setting.
use compact_fit.Base.{
  ℕ, zero, suc, ◌+◌, ◌*◌, ◌≡◌, refl, ap, ◌∙◌, Bool, true, false, Bool-cases, inl, inr, ◌==◌, ltb,
  arith, if◌then◌else◌,
}
use compact_fit.Page.{Page, pagesize}
use compact_fit.NbStack.{nb_stack_initializer}
use compact_fit.State.{Cf, set_page, set_word, null}
use compact_fit.State.Stacks.{page_put}
use compact_fit.FreePages.{init_loop, init_free_pages_list, free_list_flag, local_pages_of}

-- The settings, and the pages but for their list flags.
pub record Reflags (s t : Cf) : Type 0 where
  pub settings : t.globals ≡ s.globals
  pub contents : (p : ℕ) → t.page p ≡ record (s.page p) { list_flags = (t.page p).list_flags }

then_Reflags : (s t u : Cf) → Reflags s t → Reflags t u → Reflags s u
then_Reflags s t u first second = record {
  settings = second.settings ∙ first.settings;
  contents = λ p.
      second.contents p
      ∙ ap (λ (q : Page). record q { list_flags = (u.page p).list_flags }) (first.contents p);
}

alike_Reflags : (s : Cf) → Reflags s s
alike_Reflags s = record { settings = refl; contents = λ p. refl }

flagged-Reflags :
    (s : Cf) (p flags : ℕ) → Reflags s (set_page s p (record (s.page p) { list_flags = flags }))
flagged-Reflags s p flags = record {
  settings = refl;
  contents = λ q. elim (Bool-cases (p == q)) [
    | inl e ↦ let same : p ≡ q = ground arith in rw (e, same) refl
    | inr e ↦ rw e refl
  ];
}

word-Reflags : (s : Cf) (b : Bool) (a v : ℕ) → Reflags s (if b then set_word s a v else s)
word-Reflags s true a v = record { settings = refl; contents = λ p. refl }
word-Reflags s false a v = alike_Reflags s

put-Reflags : (s : Cf) (b : Bool) (p last : ℕ) → Reflags s (if b then page_put s p last else s)
unfolding page_put
put-Reflags s true p last = record { settings = refl; contents = λ q. refl }
put-Reflags s false p last = alike_Reflags s

init_loop-Reflags : (n i j mp : ℕ) (s : Cf) → Reflags s (init_loop n i j mp s)
unfolding init_loop
init_loop-Reflags zero i j mp s = alike_Reflags s
init_loop-Reflags (suc n) i j mp s =
    let p = s.globals.pages + i * pagesize in
    let flagged = set_page s p (record (s.page p) { list_flags = free_list_flag }) in
    let takes = ltb j s.globals.nr_local_pages in
    let linked = if takes then set_word flagged (local_pages_of p) mp else flagged in
    let mp' = if takes then p else mp in
    let j' = if takes then j + 1 else j in
    let is_full = j' == s.globals.nr_local_pages in
    let put = if is_full then page_put linked mp' mp' else linked in
    then_Reflags s flagged (init_loop (suc n) i j mp s) (flagged-Reflags s p free_list_flag) (
      then_Reflags flagged linked (init_loop (suc n) i j mp s)
        (word-Reflags flagged takes (local_pages_of p) mp)
        (then_Reflags linked put (init_loop (suc n) i j mp s) (put-Reflags linked is_full mp' mp') (
          init_loop-Reflags n (i + 1) (if is_full then 0 else j') (if is_full then null else mp')
            put)))

pub init_free_pages_list-Reflags : (s : Cf) → Reflags s (init_free_pages_list s)
unfolding init_free_pages_list
init_free_pages_list-Reflags s =
    let t = record s { free_page_head = nb_stack_initializer } in
    let started : Reflags s t = record { settings = refl; contents = λ p. refl } in
    then_Reflags s t (init_free_pages_list s) started
      (init_loop-Reflags s.globals.nr_pages 0 0 null t)
