-- ===== src/Heap/Invariant/Touched.antt =====
-- The state of a page of cf.c does not depend on its list flags.
use compact_fit.Base.{ℕ, sym}
use mathlib.Core.Path.{subst}
use compact_fit.Page.{Page}
use compact_fit.State.{Cf, SizeClass}
use compact_fit.Classes.Touched.{IsTouched}
use compact_fit.Heap.Invariant.{IsSettled, IsClean, IsFullPage, IsPartlyUsed}

reflagged-IsSettled :
    (q : Page) (flags : ℕ) → IsSettled q → IsSettled (record q { list_flags = flags })
reflagged-IsSettled q flags h = record {
  counted = record { bitmap = h.counted.bitmap; census = h.counted.census };
  pending = h.pending;
}

pub reflagged-IsClean :
    (q : Page) (flags : ℕ) → IsClean q → IsClean (record q { list_flags = flags })
reflagged-IsClean q flags h = record {
  settled = reflagged-IsSettled q flags h.settled;
  none_used = h.none_used;
}

module _ (s : Cf) (p : ℕ) (r : Page) (t : Cf) (only : IsTouched s p r t) where
  pub touched-IsClean : IsClean r → IsClean (t.page p)
  touched-IsClean h = subst IsClean (sym only.content) (reflagged-IsClean r _ h)

  pub touched-IsFullPage : (sc : ℕ) (c : SizeClass) → IsFullPage r sc c → IsFullPage (t.page p) sc c
  touched-IsFullPage sc c h =
      subst (λ q. IsFullPage q sc c) (sym only.content)
        (record {
          settled = reflagged-IsSettled r _ h.settled;
          class = h.class;
          all_used = h.all_used;
        })

  pub touched-IsPartlyUsed :
      (sc : ℕ) (c : SizeClass) → IsPartlyUsed r sc c → IsPartlyUsed (t.page p) sc c
  touched-IsPartlyUsed sc c h =
      subst (λ q. IsPartlyUsed q sc c) (sym only.content)
        (record {
          settled = reflagged-IsSettled r _ h.settled;
          class = h.class;
          some_used = h.some_used;
          some_free = h.some_free;
        })
