-- ===== src/State/Kept.antt =====
-- What most helpers of cf.c leave alone: the settings, the rings and the size-classes.
use compact_fit.Base.{ℕ, ◌≡◌, refl, ◌∙◌}
use compact_fit.Page.{Page}
use compact_fit.ListHead.{Links}
use compact_fit.State.{Cf, Globals, SizeClass}

-- The settings, rings, size-classes and pages of a state.
pub record Holds (globals : Globals) (links : Links) (size_class : ℕ → SizeClass) (page : ℕ → Page)
    (t : Cf) : Type 0 where
  pub same_globals : t.globals ≡ globals
  pub same_links : t.links ≡ links
  pub same_classes : t.size_class ≡ size_class
  pub same_pages : t.page ≡ page

-- Those of `s`, but for the pages, which are the ones named.
abbrev pub IsKept : Cf → (ℕ → Page) → Cf → Type 0
IsKept s page t = Holds s.globals s.links s.size_class page t

pub itself : (t : Cf) → Holds t.globals t.links t.size_class t.page t
itself t = record { same_globals = refl; same_links = refl; same_classes = refl; same_pages = refl }

pub through : (s t u : Cf) → IsKept s s.page t → IsKept t t.page u → IsKept s s.page u
through s t u first then = record {
  same_globals = then.same_globals ∙ first.same_globals;
  same_links = then.same_links ∙ first.same_links;
  same_classes = then.same_classes ∙ first.same_classes;
  same_pages = then.same_pages ∙ first.same_pages;
}
