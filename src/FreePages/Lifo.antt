-- ===== src/FreePages/Lifo.antt =====
-- The thread's page cache of cf.c: a page given back is the next page handed out.
use compact_fit.Base.{ℕ, false, ◌^◌, ◌<◌, ◌≤◌, ◌≡◌, refl, arith, ◌==◌}
use compact_fit.State.{Cf}
use compact_fit.FreePages.{get_free_page, add_free_page, take_page, stash, release_buckets}

release_buckets-pages_count :
    (s : Cf) → (release_buckets s).thread.pages_count ≡ s.thread.pages_count
unfolding release_buckets
release_buckets-pages_count s = ground arith

-- After a page is added, the list is not empty and its head is the page.
add_free_page-pages : (s : Cf) (p : ℕ) → (add_free_page s p).thread.pages ≡ p
unfolding add_free_page
add_free_page-pages s p = refl

add_free_page-pages_count :
    (s : Cf) (p : ℕ)
    → s.thread.pages_count ≤ s.globals.nr_local_pages
    → s.globals.nr_local_pages < 2 ^ 32
    → 0 < s.globals.nr_local_pages
    → 0 < (add_free_page s p).thread.pages_count
unfolding add_free_page stash
add_free_page-pages_count s p le small positive =
    ground (arith, release_buckets-pages_count (stash s))

-- While the thread caches at most `nr_local_pages` pages, that number being positive and below
-- 2 ^ 32, a page given back by add_free_page is the one get_free_page returns next.
pub get_free_page-add_free_page :
    (s : Cf) (p : ℕ)
    → s.thread.pages_count ≤ s.globals.nr_local_pages
    → s.globals.nr_local_pages < 2 ^ 32
    → 0 < s.globals.nr_local_pages
    → (get_free_page (add_free_page s p)).1 ≡ p
unfolding get_free_page take_page
get_free_page-add_free_page s p le small positive =
    let full = add_free_page-pages_count s p le small positive in
    let head = add_free_page-pages s p in
    let e : ((add_free_page s p).thread.pages_count == 0) ≡ false = ground arith in rw e head
