-- ===== src/AbstractAddress/Pool/Pushes.antt =====
-- The end of put_free_aa of cf.c: the address becomes the head of the list.
use compact_fit.Base.{ℕ, ◌+◌, ◌<◌, ◌≡◌, ◌≢◌, inl, inr, refl, arith, ◌∷◌, ◌==◌, update, Bool-cases}
use compact_fit.Page.{u32}
use compact_fit.ListHead.Without.{length}
use compact_fit.State.{Cf}
use compact_fit.State.Places.{page_places, aa_places, bucket_places}
use compact_fit.FreePages.Pool.{page_words}
use compact_fit.Pool.Lists.{tick}
use compact_fit.Pool.Tiers.{Tiers, tiers, total, Same-IsTiered}
use compact_fit.Pool.Turns.{push-IsTiered}
use compact_fit.AbstractAddress.{push_aa, aa_cell}
use compact_fit.AbstractAddress.Pool.{
  IsCells, OutsideBuckets, aa_words, bucket_total, Untouched, Untouched-ids, Untouched-free,
  bucket_word,
}
use compact_fit.AbstractAddress.Pool.Takes.{IsAddressPool}

-- The pool with one address more; of the words outside the buckets only its cell is written.
pub record IsReturned (s : Cf) (l k : Tiers) (id : ℕ) (t : Cf) : Type 0 where
  pub larger : Tiers
  pub free : Tiers
  pub pool : IsAddressPool t larger free
  pub same_globals : t.globals ≡ s.globals
  pub same_pages : page_places t ≡ page_places s
  pub more : (c : ℕ) → total larger c ≡ tick c id + total l c
  pub same_buckets : (b : ℕ) → bucket_total larger free b ≡ bucket_total l k b
  pub kept : (a : ℕ) → OutsideBuckets s.globals a → a ≢ aa_cell s id → t.mem a ≡ s.mem a

-- The cell of an address that is not in the pool is written.
pub cell_written :
    (s : Cf) (l k : Tiers) (id v : ℕ)
    → IsCells s l k
    → id < s.globals.nr_aas
    → total l id ≡ 0
    → Untouched s.globals s.mem (update s.mem (aa_cell s id) v) l k
cell_written s l k id v cells small new = record {
  cells = λ c i. ground (arith, i, new);
  words = λ h i.
      let (low, high) = bucket_word s.globals h id cells.space (cells.placed h i) small in
      (ground (arith, low), ground (arith, high));
}

pub push_aa-IsReturned :
    (s : Cf) (l k : Tiers) (id : ℕ)
    → IsAddressPool s l k
    → length l.front < s.globals.nr_local_aas
    → id < s.globals.nr_aas
    → total l id ≡ 0
    → IsReturned s l k id (push_aa s id)
unfolding push_aa
push_aa-IsReturned s l k id pool room small new =
    let d = s.thread in
    let g = s.globals in
    let cells = pool.cells in
    let v = aa_words g.aa_space s.mem in
    let larger = tiers (id ∷ l.front) l.own l.shared in
    let count' = u32 (d.aas_count + 1) in
    let more : count' ≡ d.aas_count + 1 =
      omega (arith, cells.ids.counts, cells.space.local_int, room) in
    let numbered : (c : ℕ) → 0 < total larger c → c < g.nr_aas = λ c i.
      elim (Bool-cases (c == id)) [
        | inl e ↦ ground (arith, e, small)
        | inr e ↦ cells.numbered c (ground (arith, i, e))
      ] in
    elim (Bool-cases (d.aas_count == 0)) [
      | inl e ↦ rw e (record {
        larger = larger;
        free = k;
        pool = record {
          cells = record {
            space = cells.space;
            ids =
                push-IsTiered v v (aa_places s) l.front l.own l.shared id count' cells.ids
                  (record { links = λ c i. refl; begin = λ h i. refl; nexts = λ h i. refl }) new
                  room more (λ i. absurd (ground (arith, e, i)));
            free = cells.free;
            numbered = numbered;
            placed = cells.placed;
            apart = cells.apart;
          };
          few = pool.few;
        };
        same_globals = refl;
        same_pages = refl;
        more = λ c. omega arith;
        same_buckets = λ b. refl;
        kept = λ a far ne. refl;
      })
      | inr e ↦
          let mem' = update s.mem (aa_cell s id) d.aas in
          let same = cell_written s l k id d.aas cells small new in
          rw e (record {
            larger = larger;
            free = k;
            pool = record {
              cells = record {
                space = cells.space;
                ids =
                    push-IsTiered v (aa_words g.aa_space mem') (aa_places s) l.front l.own l.shared
                      id count' cells.ids (Untouched-ids g s.mem mem' l k same) new room more
                      (λ i. ground arith);
                free =
                    Same-IsTiered (page_words s.mem) (page_words mem') (bucket_places s) k
                      (Untouched-free s mem' l k cells.space cells.free same) cells.free;
                numbered = numbered;
                placed = cells.placed;
                apart = cells.apart;
              };
              few = pool.few;
            };
            same_globals = refl;
            same_pages = refl;
            more = λ c. omega arith;
            same_buckets = λ b. refl;
            kept = λ a far ne. ground (arith, ne);
          })
    ]
