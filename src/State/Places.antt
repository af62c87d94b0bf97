-- ===== src/State/Places.antt =====
-- Where the state of cf.c keeps its three pools: free pages, free abstract addresses, and buckets
-- that hold no address.
use compact_fit.NbStack.{page_format, aa_format, lifo_to_elem}
use compact_fit.State.{Cf}
use compact_fit.Pool.Tiers.{Places}

abbrev pub page_places : Cf → Places
page_places s =
    let d = s.thread in
    record {
      size = s.globals.nr_local_pages;
      front_count = d.pages_count;
      front_first = d.pages;
      own_count = d.pbuckets_count;
      own_first = d.pbuckets;
      own_last = d.last_pbucket;
      shared_first = lifo_to_elem page_format s.free_page_head;
    }

abbrev pub aa_places : Cf → Places
aa_places s =
    let d = s.thread in
    record {
      size = s.globals.nr_local_aas;
      front_count = d.aas_count;
      front_first = d.aas;
      own_count = d.abuckets_count;
      own_first = d.abuckets;
      own_last = d.last_abucket;
      shared_first = lifo_to_elem aa_format s.free_aa_head;
    }

abbrev pub bucket_places : Cf → Places
bucket_places s =
    let d = s.thread in
    record {
      size = s.globals.nr_local_free_abuckets;
      front_count = d.free_abuckets_count;
      front_first = d.free_abuckets;
      own_count = 0;
      own_first = 0;
      own_last = 0;
      shared_first = lifo_to_elem aa_format s.free_aa_buckets_head;
    }
