-- ===== src/Classes/Refiles.antt =====
-- What moving a page between the rings of its size-class in cf.c changes beside the rings: the page's
-- list flags and the class's counters.
use compact_fit.Base.{ℕ, ◌≡◌, refl, ap, arith}
use compact_fit.Page.{Page}
use compact_fit.State.{Cf}
use compact_fit.State.Kept.{IsKept}
use compact_fit.FreePages.{
  nfull_list_flag, full_list_flag, source_list_flag, emptying_list_flag, free_list_flag,
  add_free_page,
}
use compact_fit.FreePages.Keeps.{reflag, add_free_page-IsKept}
use compact_fit.Classes.{
  add_page_to_list, remove_page_from_list, add_page_to_nfull_list, remove_page_from_nfull_list,
  add_page_to_full_list, remove_page_from_full_list, add_page_to_source_list,
  remove_page_from_source_list, add_page_to_emptying_list, remove_page_from_emptying_list,
}

-- The settings are those of `s`, and the pages those named.
pub record Refiles (s : Cf) (page : ℕ → Page) (t : Cf) : Type 0 where
  pub globals : t.globals ≡ s.globals
  pub block_size : (sc : ℕ) → (t.size_class sc).block_size ≡ (s.size_class sc).block_size
  pub bound :
      (sc : ℕ)
      → (t.size_class sc).partial_compaction_bound ≡ (s.size_class sc).partial_compaction_bound
  pub pages : t.page ≡ page

pub IsKept-Refiles : (s : Cf) (page : ℕ → Page) (t : Cf) → IsKept s page t → Refiles s page t
IsKept-Refiles s page t kept = record {
  globals = kept.same_globals;
  block_size = λ sc. ap (λ c. (c sc).block_size) kept.same_classes;
  bound = λ sc. ap (λ c. (c sc).partial_compaction_bound) kept.same_classes;
  pages = kept.same_pages;
}

module _ (s : Cf) (sc p : ℕ) where
  pub add_page_to_full_list-Refiles :
      Refiles s (reflag s.page p full_list_flag) (add_page_to_full_list s sc p)
  unfolding add_page_to_full_list add_page_to_list
  add_page_to_full_list-Refiles = record {
    globals = refl;
    block_size = λ q. ground arith;
    bound = λ q. ground arith;
    pages = refl;
  }

  pub remove_page_from_full_list-Refiles :
      Refiles s (reflag s.page p 0) (remove_page_from_full_list s sc p)
  unfolding remove_page_from_full_list remove_page_from_list
  remove_page_from_full_list-Refiles = record {
    globals = refl;
    block_size = λ q. ground arith;
    bound = λ q. ground arith;
    pages = refl;
  }

  pub add_page_to_nfull_list-Refiles :
      Refiles s (reflag s.page p nfull_list_flag) (add_page_to_nfull_list s sc p)
  unfolding add_page_to_nfull_list add_page_to_list
  add_page_to_nfull_list-Refiles = record {
    globals = refl;
    block_size = λ q. ground arith;
    bound = λ q. ground arith;
    pages = refl;
  }

  pub remove_page_from_nfull_list-Refiles :
      Refiles s (reflag s.page p 0) (remove_page_from_nfull_list s sc p)
  unfolding remove_page_from_nfull_list remove_page_from_list
  remove_page_from_nfull_list-Refiles = record {
    globals = refl;
    block_size = λ q. ground arith;
    bound = λ q. ground arith;
    pages = refl;
  }

  pub add_page_to_source_list-Refiles :
      Refiles s (reflag s.page p source_list_flag) (add_page_to_source_list s sc p)
  unfolding add_page_to_source_list add_page_to_list
  add_page_to_source_list-Refiles = record {
    globals = refl;
    block_size = λ q. ground arith;
    bound = λ q. ground arith;
    pages = refl;
  }

  pub remove_page_from_source_list-Refiles :
      Refiles s (reflag s.page p 0) (remove_page_from_source_list s sc p)
  unfolding remove_page_from_source_list remove_page_from_list
  remove_page_from_source_list-Refiles = record {
    globals = refl;
    block_size = λ q. ground arith;
    bound = λ q. ground arith;
    pages = refl;
  }

  pub add_page_to_emptying_list-Refiles :
      Refiles s (reflag s.page p emptying_list_flag) (add_page_to_emptying_list s sc p)
  unfolding add_page_to_emptying_list add_page_to_list
  add_page_to_emptying_list-Refiles = record {
    globals = refl;
    block_size = λ q. ground arith;
    bound = λ q. ground arith;
    pages = refl;
  }

  pub remove_page_from_emptying_list-Refiles :
      Refiles s (reflag s.page p 0) (remove_page_from_emptying_list s sc p)
  unfolding remove_page_from_emptying_list remove_page_from_list
  remove_page_from_emptying_list-Refiles = record {
    globals = refl;
    block_size = λ q. ground arith;
    bound = λ q. ground arith;
    pages = refl;
  }

pub add_free_page-Refiles :
    (s : Cf) (p : ℕ) → Refiles s (reflag s.page p free_list_flag) (add_free_page s p)
add_free_page-Refiles s p =
    IsKept-Refiles s (reflag s.page p free_list_flag) (add_free_page s p) (add_free_page-IsKept s p)
