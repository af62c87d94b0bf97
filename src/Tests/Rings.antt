-- ===== src/Tests/Rings.antt =====
-- The rings of list.h at concrete inputs.
use compact_fit.Base.{refl, [], ◌∷◌}
use compact_fit.ListHead.{Links, init_list_head, list_add, list_del, list_move}
use compact_fit.ListHead.Ring.{IsRing}
use compact_fit.ListHead.Insert.{init_list_head-IsRing, list_add-cons}
use compact_fit.ListHead.Delete.{Forward, list_del-IsRing, list_move-loses}

abbrev zeros : Links
zeros = record { next = λ a. 0; prev = λ a. 0 }

-- Empty rings at 8 and at 16.
abbrev heads : Links
heads = init_list_head (init_list_head zeros 8) 16

empty_at_16 : IsRing heads 16 []
empty_at_16 = init_list_head-IsRing (init_list_head zeros 8) 16

empty_at_8 : IsRing heads 8 []
unfolding init_list_head
empty_at_8 = record { chain = (refl, refl); apart = refl; distinct = tt }

-- The ring at 16 with one entry, and with two.
abbrev one_entry : Links
one_entry = list_add heads 16 500

one-IsRing : IsRing one_entry 16 (500 ∷ [])
one-IsRing = list_add-cons heads 16 500 [] empty_at_16 refl

abbrev two_entries : Links
two_entries = list_add one_entry 16 600

two-IsRing : IsRing two_entries 16 (600 ∷ 500 ∷ [])
two-IsRing = list_add-cons one_entry 16 600 (500 ∷ []) one-IsRing refl

list_del-IsRing_example : IsRing (list_del two_entries 500) 16 (600 ∷ [])
list_del-IsRing_example = list_del-IsRing two_entries 16 (600 ∷ []) 500 [] two-IsRing

list_move-loses_example : Forward (list_move two_entries 16 500) 16 [] 16
list_move-loses_example = list_move-loses two_entries 16 (600 ∷ []) 500 [] two-IsRing
